-- ===== src/Llm/Compaction/Pairs.antt =====
-- loop/src/compaction.rs: no response of a tool loses its call, and what a compaction keeps.
-- Whether a message, if it is a tool's response to an id, answers a call that is still open.
use overacp.Llm.Compaction.Split.{IsSafe}
use overacp.Llm.Compaction.{
  by_role, context_message, has_straddling_pair, if_system, is_nil, pending, start_of,
  system_message, system_part,
}
use overacp.Llm.Types.{Message, Role, assistant, system, tool, user}
use overacp.Prelude.{
  Bool, List, Option, String, [], any, ap, arith, drop, false, nat_eq, none, not, refl, some,
  string_eq, subst, suc, sym, take, take-append-drop, true, zero, ℕ, ◌&&◌, ◌++◌, ◌-◌, ◌<◌, ◌==◌,
  ◌∙◌, ◌∷◌, ◌≡◌, ◌≤◌,
}

abbrev pub answers_open : Role → Option String → List String → Bool
answers_open tool (some i) calls = any (λ j. j == i) calls
answers_open tool none calls = true
answers_open assistant i calls = true
answers_open user i calls = true
answers_open system i calls = true

-- Whether every tool's response of a history answers a call that was made before it and is open.
unfoldable pub answers_all : List String → List Message → Bool
answers_all calls [] = true
answers_all calls (m ∷ ms) =
    answers_open m.role m.tool_call_id calls && answers_all (by_role m.role m calls) ms

and-right : (a b : Bool) → (a && b) ≡ true → b ≡ true
and-right true b h = h
and-right false b h = absurd (ground arith)

pub not-false : (b : Bool) → not b ≡ false → b ≡ true
not-false true h = refl
not-false false h = absurd (ground arith)

answers_all-append :
    (calls : List String) (xs ys : List Message)
    → answers_all calls (xs ++ ys) ≡ true
    → answers_all (pending xs calls) ys ≡ true
unfolding answers_all pending
answers_all-append calls [] ys h = h
answers_all-append calls (m ∷ ms) ys h =
    answers_all-append (by_role m.role m calls) ms ys (and-right _ _ h)

pub is_nil-true : (xs : List String) → is_nil xs ≡ true → xs ≡ []
is_nil-true [] h = refl
is_nil-true (x ∷ xs) h = absurd (ground arith)

-- After a safe split of a history without a system message at its head, or behind one.
answers_all-drop :
    (ms : List Message) (n : ℕ)
    → answers_all [] ms ≡ true
    → is_nil (pending (take n ms) []) ≡ true
    → answers_all [] (drop n ms) ≡ true
answers_all-drop ms n h safe =
    subst (λ calls. answers_all calls (drop n ms) ≡ true) (is_nil-true _ safe)
      (answers_all-append [] (take n ms) (drop n ms)
        (subst (λ l. answers_all [] l ≡ true) (sym (take-append-drop n ms)) h))

by_role-system :
    (r : Role) (m : Message) (calls : List String)
    → start_of (if_system r m) ≡ 1
    → by_role r m calls ≡ calls
by_role-system system m calls h = refl
by_role-system user m calls h = refl
by_role-system assistant m calls h = absurd (ground arith)
by_role-system tool m calls h = absurd (ground arith)

drop-nil : (n : ℕ) → Path (List Message) (drop n []) []
drop-nil zero = refl
drop-nil (suc n) = refl

pub drop-drop :
    (start n : ℕ) (ms : List Message) → start ≤ n → drop (n - start) (drop start ms) ≡ drop n ms
drop-drop zero n ms h = ap (λ k. drop k ms) (omega arith)
drop-drop (suc s) zero ms h = absurd (omega arith)
drop-drop (suc s) (suc n) [] h = drop-nil _
drop-drop (suc s) (suc n) (m ∷ ms) h =
    ap (λ k. drop k (drop s ms)) (omega arith) ∙ drop-drop s n ms (omega arith)

answers_tail :
    (r : Role) (m : Message) (ms : List Message)
    → answers_all (by_role r m []) ms ≡ true
    → answers_all [] (m ∷ ms) ≡ true
    → answers_all [] (drop (start_of (if_system r m)) (m ∷ ms)) ≡ true
answers_tail system m ms tail whole = tail
answers_tail user m ms tail whole = whole
answers_tail assistant m ms tail whole = whole
answers_tail tool m ms tail whole = whole

answers_all-start :
    (messages : List Message)
    → answers_all [] messages ≡ true
    → answers_all [] (drop (start_of (system_message messages)) messages) ≡ true
unfolding answers_all system_message
answers_all-start [] h = h
answers_all-start (m ∷ ms) h = answers_tail m.role m ms (and-right _ _ h) h

pub answers_all-safe :
    (messages : List Message) (split : ℕ)
    → answers_all [] messages ≡ true
    → start_of (system_message messages) < split
    → IsSafe messages (start_of (system_message messages)) split
    → answers_all [] (drop split messages) ≡ true
unfolding has_straddling_pair
answers_all-safe messages split h later safe =
    let start = start_of (system_message messages) in
    subst (λ l. answers_all [] l ≡ true) (drop-drop start split messages (omega arith))
      (answers_all-drop (drop start messages) (split - start) (answers_all-start messages h)
        (not-false _ safe))

answers_head :
    (m : Message) (s : String) (recent : List Message) (r : Role)
    → m.role ≡ r
    → answers_all [] recent ≡ true
    → answers_all [] (system_part (if_system r m) ++ context_message s ∷ recent) ≡ true
unfolding answers_all context_message
answers_head m s recent system e h = rw e h
answers_head m s recent user e h = h
answers_head m s recent assistant e h = h
answers_head m s recent tool e h = h

-- A system message at the head, if there is one, and the context message leave no call open.
pub answers_all-working :
    (messages : List Message) (s : String) (recent : List Message)
    → answers_all [] recent ≡ true
    → answers_all [] (system_part (system_message messages) ++ context_message s ∷ recent) ≡ true
unfolding answers_all context_message system_message
answers_all-working [] s recent h = h
answers_all-working (m ∷ ms) s recent h = answers_head m s recent m.role refl h
