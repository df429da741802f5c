-- ===== src/Prelude/Texts.antt =====
-- The functions of `str` that the source calls, over the native texts. Positions count bytes.
use Prim.Native.Nat.{ℕ, suc}
use Prim.Native.String.{String, len, slice, ◌++◌}
use mathlib.Core.Path.{◌≡◌, refl}
use mathlib.Core.Option.{Option, none, some}
use text.Mathlib.Text.{starts_with}
use overacp.Prelude.Tests.{if◌then◌else◌}

-- `String::push_str`, and what `format!` does with two parts.
abbrev pub push_str : String → String → String
push_str s t = s ++ t

abbrev pub str_len : String → ℕ
str_len s = len s

-- The number of characters of a text.
abbrev pub chars : String → ℕ
chars String.[] = 0
chars (String.◌∷◌ c s) = suc (chars s)

-- `str::strip_prefix`.
abbrev pub strip_prefix : String → String → Option String
strip_prefix s pre = if starts_with s pre then some (slice s (len pre) (len s)) else none

bearer : strip_prefix "Bearer abc" "Bearer " ≡ some "abc"
bearer = refl
