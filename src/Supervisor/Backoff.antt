-- ===== src/Supervisor/Backoff.antt =====
-- agent/src/tunnel.rs: the attempts to connect and the waits between them.
use overacp.Prelude.Result.{Result, err, ok}
use overacp.Prelude.{
  List, Option, String, [], ap, arith, if◌then◌else◌, leb, length, none, refl, some, suc, zero, ℕ,
  ◌++◌, ◌+◌, ◌^◌, ◌∷◌, ◌≡◌, ◌≤◌,
}

abbrev max_backoff_secs : ℕ
max_backoff_secs = 30

abbrev u32_max : ℕ
u32_max = 4294967295

abbrev min_of : ℕ → ℕ → ℕ
min_of a b = if leb a b then a else b

unfoldable pub backoff_secs : ℕ → ℕ
backoff_secs attempt = min_of (2 ^ min_of attempt 6) max_backoff_secs

-- `saturating_add(1)` of a `u32`
abbrev next_attempt : ℕ → ℕ
next_attempt attempt = min_of (attempt + 1) u32_max

-- `connect_with_retry`, over the outcomes of its attempts: the connection, if one of them makes it, and
-- the waits in seconds before it.
unfoldable pub connect_from : {Conn : Type 0} → ℕ → List (Result String Conn) → Option Conn × List ℕ
connect_from attempt [] = (none, [])
connect_from attempt (ok conn ∷ outcomes) = (some conn, [])
connect_from attempt (err e ∷ outcomes) =
    let (conn, waits) = connect_from (next_attempt attempt) outcomes in
    (conn, backoff_secs attempt ∷ waits)

unfoldable pub connect_with_retry :
    {Conn : Type 0} → List (Result String Conn) → Option Conn × List ℕ
connect_with_retry outcomes = connect_from 0 outcomes

min_of-le : (a b : ℕ) → min_of a b ≤ b
min_of-le a b = ground arith

min_of-ge : (a b c : ℕ) → c ≤ a → c ≤ b → c ≤ min_of a b
min_of-ge a b c h k = ground arith

one_le_pow : (n : ℕ) → 1 ≤ 2 ^ n
one_le_pow zero = omega arith
one_le_pow (suc n) = omega (arith, one_le_pow n)

abbrev pub InBounds : List ℕ → Type 0
InBounds [] = Unit
InBounds (w ∷ waits) = ((1 ≤ w) × (w ≤ 30)) × InBounds waits

backoff_secs-bounds : (attempt : ℕ) → (1 ≤ backoff_secs attempt) × (backoff_secs attempt ≤ 30)
unfolding backoff_secs
backoff_secs-bounds attempt = (
  min_of-ge (2 ^ min_of attempt 6) 30 1 (one_le_pow (min_of attempt 6)) (omega arith),
  min_of-le (2 ^ min_of attempt 6) 30,
)

abbrev pub failures : {Conn : Type 0} → List String → List (Result String Conn)
failures [] = []
failures (e ∷ es) = err e ∷ failures es

connect_from-first :
    {Conn : Type 0} (attempt : ℕ) (es : List String) (conn : Conn)
    (later : List (Result String Conn))
    → let (found, waits) = connect_from attempt (failures es ++ ok conn ∷ later) in
      (found ≡ some conn) × (length waits ≡ length es) × InBounds waits
unfolding connect_from
connect_from-first attempt [] conn later = (refl, refl, tt)
connect_from-first attempt (e ∷ es) conn later =
    let (found, n, bounds) = connect_from-first (next_attempt attempt) es conn later in
    (found, ap suc n, (backoff_secs-bounds attempt, bounds))

-- After any number of failed attempts, the first attempt that makes a connection ends the loop with
-- that connection; there was one wait for each failure, of one second at least and thirty at most.
pub connect_with_retry-first :
    {Conn : Type 0} (es : List String) (conn : Conn) (later : List (Result String Conn))
    → let (found, waits) = connect_with_retry (failures es ++ ok conn ∷ later) in
      (found ≡ some conn) × (length waits ≡ length es) × InBounds waits
unfolding connect_with_retry
connect_with_retry-first es conn later = connect_from-first 0 es conn later
