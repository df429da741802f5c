-- ===== src/Config.antt =====
-- compute/src/config/reference.rs: the references in a configuration value. A text is the list of its
-- UTF-8 bytes, which the parser reads one by one; what it pushes for a byte is the character with the
-- number of that byte.
pub mod Printed
pub mod Resolve
pub mod Examples
use overacp.Prelude.{
  Bool, List, Option, [], false, if◌then◌else◌, nat_eq, none, some, string_eq, true, ℕ, ◌++◌, ◌==◌,
  ◌∷◌,
}

abbrev pub dollar : ℕ
dollar = 36

abbrev pub open_brace : ℕ
open_brace = 123

abbrev pub close_brace : ℕ
close_brace = 125

abbrev pub colon : ℕ
colon = 58

pub data Segment : Type 0 where
  literal : List ℕ → Segment
  reference : List ℕ → List ℕ → Option (List ℕ) → Segment

-- Where the parser stands: in a literal, behind a dollar sign in one, or in the body of a reference.
pub data Mode : Type 0 where
  in_literal : List ℕ → Mode
  in_dollar : List ℕ → Mode
  in_body : List ℕ → Mode

-- `split_once(':')`
unfoldable pub split_colon : List ℕ → Option (List ℕ × List ℕ)
split_colon [] = none
split_colon (b ∷ bs) =
    let rest = split_colon bs in
    if b == colon
    then some ([], bs)
    else elim rest [ none ↦ none | some (before, after) ↦ some (b ∷ before, after) ]

abbrev pub is_empty_text : List ℕ → Bool
is_empty_text [] = true
is_empty_text (b ∷ bs) = false

abbrev made : List ℕ → List ℕ → Option (List ℕ) → Option Segment
made scheme path key = if is_empty_text path then none else some (reference scheme path key)

abbrev with_path : List ℕ → List ℕ → Option (List ℕ × List ℕ) → Option Segment
with_path scheme rest none = made scheme rest none
with_path scheme rest (some (path, key)) = made scheme path (some key)

abbrev with_scheme : Option (List ℕ × List ℕ) → Option Segment
with_scheme none = none
with_scheme (some (scheme, rest)) =
    if is_empty_text scheme then none else with_path scheme rest (split_colon rest)

-- `parse_ref_body`; none stands for `BadReference`, whose text is the whole input.
unfoldable pub parse_ref_body : List ℕ → Option Segment
parse_ref_body body = with_scheme (split_colon body)

abbrev pub flush : List ℕ → List Segment → List Segment
flush [] out = out
flush (c ∷ buf) out = out ++ literal (c ∷ buf) ∷ []

abbrev pub push_ref : Option Segment → List Segment → Option (Mode × List Segment)
push_ref none out = none
push_ref (some seg) out = some (in_literal [], out ++ seg ∷ [])

-- One byte of the `while` loop, which looks at two bytes behind a dollar sign, and of `find('}')`.
unfoldable pub step : ℕ → Mode → List Segment → Option (Mode × List Segment)
step b (in_literal buf) out =
    some (if b == dollar then in_dollar buf else in_literal (buf ++ b ∷ []), out)
step b (in_dollar buf) out =
    if b == dollar
    then some (in_literal (buf ++ dollar ∷ []), out)
    else if b == open_brace
    then some (in_body [], flush buf out)
    else some (in_literal (buf ++ dollar ∷ b ∷ []), out)
step b (in_body body) out =
    if b == close_brace
    then push_ref (parse_ref_body body) out
    else some (in_body (body ++ b ∷ []), out)

-- The end of the input.
abbrev pub at_end : Mode → List Segment → Option (List Segment)
at_end (in_literal buf) out = some (flush buf out)
at_end (in_dollar buf) out = some (flush (buf ++ dollar ∷ []) out)
at_end (in_body body) out = none

abbrev pub then_scan :
    Option (Mode × List Segment)
    → (Mode → List Segment → Option (List Segment))
    → Option (List Segment)
then_scan none rest = none
then_scan (some (mode, out)) rest = rest mode out

unfoldable pub scan : List ℕ → Mode → List Segment → Option (List Segment)
scan [] mode out = at_end mode out
scan (b ∷ bs) mode out = then_scan (step b mode out) (scan bs)

unfoldable pub parse : List ℕ → Option (List Segment)
parse input = scan input (in_literal []) []
