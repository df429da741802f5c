-- ===== src/Config/Printed.antt =====
-- compute/src/config/reference.rs: the parser reads back what is written by the grammar of its
-- documentation, with a dollar sign of a literal doubled.
use mathlib.Core.List.{append-nil, append_assoc}
use overacp.Config.{
  Segment, close_brace, colon, dollar, flush, in_body, in_literal, is_empty_text, literal,
  open_brace, parse, parse_ref_body, push_ref, reference, scan, split_colon, step, then_scan,
}
use overacp.Prelude.{
  Bool, Bool-cases, List, Option, [], ap, arith, false, if◌then◌else◌, inl, inr, nat_eq, none, not,
  refl, same_iff, some, string_eq, sym, true, ℕ, ◌&&◌, ◌++◌, ◌==◌, ◌∙◌, ◌∷◌, ◌≡◌,
}

unfoldable pub escape : List ℕ → List ℕ
escape [] = []
escape (b ∷ bs) = let rest = escape bs in if b == dollar then dollar ∷ dollar ∷ rest else b ∷ rest

abbrev key_part : Option (List ℕ) → List ℕ
key_part none = []
key_part (some key) = colon ∷ key

abbrev ref_body : List ℕ → List ℕ → Option (List ℕ) → List ℕ
ref_body scheme path key = scheme ++ colon ∷ (path ++ key_part key)

unfoldable pub print_all : List Segment → List ℕ
print_all [] = []
print_all (literal s ∷ segs) = escape s ++ print_all segs
print_all (reference scheme path key ∷ segs) =
    dollar ∷ open_brace ∷ ref_body scheme path key ++ close_brace ∷ print_all segs

abbrev pub lacks : ℕ → List ℕ → Bool
lacks c [] = true
lacks c (b ∷ bs) = not (b == c) && lacks c bs

-- A scheme and a path that are not empty and hold no colon, and no closing brace anywhere.
abbrev printable_ref : List ℕ → List ℕ → Option (List ℕ) → Bool
printable_ref scheme path key =
    not (is_empty_text scheme)
    && not (is_empty_text path)
    && lacks colon scheme
    && lacks colon path
    && lacks close_brace (ref_body scheme path key)

-- Segments as the parser gives them: no literal is empty, and no two literals stand side by side.
unfoldable pub printable : List Segment → Bool
printable [] = true
printable (literal s ∷ []) = not (is_empty_text s)
printable (literal s ∷ literal t ∷ segs) = false
printable (literal s ∷ reference scheme path key ∷ segs) =
    not (is_empty_text s) && printable_ref scheme path key && printable segs
printable (reference scheme path key ∷ segs) = printable_ref scheme path key && printable segs

split_colon-append :
    (a b : List ℕ) → lacks colon a ≡ true → split_colon (a ++ colon ∷ b) ≡ some (a, b)
unfolding split_colon
split_colon-append [] b h = refl
split_colon-append (c ∷ a) b h = ground (arith, split_colon-append a b)

split_colon-none : (a : List ℕ) → lacks colon a ≡ true → split_colon a ≡ none
unfolding split_colon
split_colon-none [] h = refl
split_colon-none (c ∷ a) h = ground (arith, split_colon-none a)

scan-escape :
    (s rest buf : List ℕ) (out : List Segment)
    → scan (escape s ++ rest) (in_literal buf) out ≡ scan rest (in_literal (buf ++ s)) out
unfolding scan step escape
scan-escape [] rest buf out = ap (λ l. scan rest (in_literal l) out) (sym (append-nil buf))
scan-escape (b ∷ s) rest buf out = elim (Bool-cases (b == dollar)) [
  | inl e ↦
      rw (e, (same_iff b dollar).0 e)
        (scan-escape s rest (buf ++ dollar ∷ []) out
          ∙ ap (λ l. scan rest (in_literal l) out) (append_assoc buf (dollar ∷ []) s))
  | inr e ↦ rw e (
      rw e (
        scan-escape s rest (buf ++ b ∷ []) out
        ∙ ap (λ l. scan rest (in_literal l) out) (append_assoc buf (b ∷ []) s)))
]

scan-body :
    (body rest acc : List ℕ) (out : List Segment)
    → lacks close_brace body ≡ true
    → scan (body ++ close_brace ∷ rest) (in_body acc) out
      ≡ then_scan (push_ref (parse_ref_body (acc ++ body)) out) (scan rest)
unfolding scan step
scan-body [] rest acc out h =
    ap (λ l. then_scan (push_ref (parse_ref_body l) out) (scan rest)) (sym (append-nil acc))
scan-body (b ∷ body) rest acc out h = elim (Bool-cases (b == close_brace)) [
  | inl e ↦ absurd (ground arith)
  | inr e ↦ rw e (
      scan-body body rest (acc ++ b ∷ []) out (ground arith)
      ∙ ap (λ l. then_scan (push_ref (parse_ref_body l) out) (scan rest))
          (append_assoc acc (b ∷ []) body))
]

parse_ref_body-keyless :
    (scheme path : List ℕ)
    → parse_ref_body (ref_body scheme path none) ≡ parse_ref_body (scheme ++ colon ∷ path)
parse_ref_body-keyless scheme path =
    ap (λ p. parse_ref_body (scheme ++ colon ∷ p)) (append-nil path)

parse_ref_body-made :
    (scheme path : List ℕ) (key : Option (List ℕ))
    → printable_ref scheme path key ≡ true
    → parse_ref_body (ref_body scheme path key) ≡ some (reference scheme path key)
unfolding parse_ref_body
parse_ref_body-made scheme path none h =
    parse_ref_body-keyless scheme path
    ∙ rw (split_colon-append scheme path (ground arith))
        (rw (split_colon-none path (ground arith)) (ground arith))
parse_ref_body-made scheme path (some key) h =
    rw (split_colon-append scheme (path ++ colon ∷ key) (ground arith))
      (rw (split_colon-append path key (ground arith)) (ground arith))

-- A reference behind what was read of a literal.
scan-reference :
    (scheme path : List ℕ) (key : Option (List ℕ)) (rest buf : List ℕ) (out : List Segment)
    → printable_ref scheme path key ≡ true
    → scan
        (dollar ∷ open_brace ∷ ref_body scheme path key ++ close_brace ∷ rest)
        (in_literal buf)
        out
      ≡ scan rest (in_literal []) (flush buf out ++ reference scheme path key ∷ [])
unfolding scan step
scan-reference scheme path key rest buf out h =
    scan-body (ref_body scheme path key) rest [] (flush buf out) (ground arith)
    ∙ ap (λ o. then_scan (push_ref o (flush buf out)) (scan rest))
        (parse_ref_body-made scheme path key h)

-- What a literal that was read leaves behind.
flush-literal :
    (s : List ℕ) (out : List Segment)
    → not (is_empty_text s) ≡ true
    → flush s out ≡ out ++ literal s ∷ []
flush-literal [] out h = absurd (ground arith)
flush-literal (c ∷ s) out h = refl

scan-print_all :
    (segs out : List Segment)
    → printable segs ≡ true
    → scan (print_all segs) (in_literal []) out ≡ some (out ++ segs)
unfolding print_all printable scan
scan-print_all [] out h = ap some (sym (append-nil out))
scan-print_all (literal s ∷ []) out h =
    scan-escape s [] [] out ∙ ap some (flush-literal s out (ground arith))
scan-print_all (literal s ∷ literal t ∷ segs) out h = absurd (ground arith)
scan-print_all (literal s ∷ reference scheme path key ∷ segs) out h =
    scan-escape s (print_all (reference scheme path key ∷ segs)) [] out
    ∙ scan-reference scheme path key (print_all segs) s out (ground arith)
    ∙ scan-print_all segs (flush s out ++ reference scheme path key ∷ []) (ground arith)
    ∙ ap some (append_assoc (flush s out) (reference scheme path key ∷ []) segs)
    ∙ ap (λ o. some (o ++ reference scheme path key ∷ segs)) (flush-literal s out (ground arith))
    ∙ ap some (append_assoc out (literal s ∷ []) (reference scheme path key ∷ segs))
scan-print_all (reference scheme path key ∷ segs) out h =
    scan-reference scheme path key (print_all segs) [] out (ground arith)
    ∙ scan-print_all segs (out ++ reference scheme path key ∷ []) (ground arith)
    ∙ ap some (append_assoc out (reference scheme path key ∷ []) segs)

scan-plain :
    (v buf : List ℕ) (out : List Segment)
    → lacks dollar v ≡ true
    → scan v (in_literal buf) out ≡ some (flush (buf ++ v) out)
unfolding scan step
scan-plain [] buf out h = ap (λ l. some (flush l out)) (sym (append-nil buf))
scan-plain (b ∷ v) buf out h = elim (Bool-cases (b == dollar)) [
  | inl e ↦ absurd (ground arith)
  | inr e ↦ rw e (
      scan-plain v (buf ++ b ∷ []) out (ground arith)
      ∙ ap (λ l. some (flush l out)) (append_assoc buf (b ∷ []) v))
]

-- A text without a dollar sign is one literal.
pub parse-plain : (v : List ℕ) → lacks dollar v ≡ true → parse v ≡ some (flush v [])
unfolding parse
parse-plain v h = scan-plain v [] [] h

-- A list of segments as the parser gives them, written by the documented grammar with each dollar
-- sign of a literal doubled, is read back unchanged, however literals and references follow one
-- another, where a byte of a literal is one character of it. In such a list no literal is empty and
-- no two stand side by side; a reference has a scheme and a path that are not empty and hold no
-- colon, and no closing brace.
pub parse-print_all :
    (segs : List Segment) → printable segs ≡ true → parse (print_all segs) ≡ some segs
unfolding parse
parse-print_all segs h = scan-print_all segs [] h
