-- ===== src/Llm/Sse/Fuel.antt =====
-- loop/src/llm/client.rs: the inner loop of `process_stream` ends, since each pass shortens the buffer.
use text.Mathlib.Text.{starts_with}
use overacp.Llm.Sse.{
  Delta, Reader, StreamChoice, StreamEvent, emit_calls, emit_text, on_data, on_event, on_line,
  read_chunk, read_lines, split_line, with_choice, with_choices, with_delta, with_event,
}
use overacp.Llm.Stream.{ToolCallDelta}
use overacp.Prelude.Texts.{chars, push_str, strip_prefix}
use overacp.Prelude.{
  Bool, List, Option, Option-cases, String, [], ap, arith, false, if◌then◌else◌, inl, inr, nat_eq,
  none, refl, some, string_eq, subst, suc, sym, true, zero, ℕ, ◌<◌, ◌==◌, ◌||◌, ◌∙◌, ◌∷◌, ◌≡◌, ◌≤◌,
}

split_line-shorter :
    (s line after : String) → split_line s ≡ some (line, after) → chars after < chars s
unfolding split_line
split_line-shorter String.[] line after h = absurd (ground arith)
split_line-shorter (String.◌∷◌ c s) line after h = elim (Option-cases (split_line s)) [
  | inl e ↦ ground arith
  | inr ((l, a), e) ↦ ground (arith, split_line-shorter s l a e)
]

module _ {Cost : Type 0} where
  buffer-emit_text : (o : Option String) (r : Reader Cost) → (emit_text o r).buffer ≡ r.buffer
  buffer-emit_text none r = refl
  buffer-emit_text (some t) r = refl

  buffer-emit_calls :
      (o : Option (List ToolCallDelta)) (r : Reader Cost) → (emit_calls o r).buffer ≡ r.buffer
  buffer-emit_calls none r = refl
  buffer-emit_calls (some ds) r = refl

  buffer-with_delta : (o : Option Delta) (r : Reader Cost) → (with_delta o r).buffer ≡ r.buffer
  buffer-with_delta none r = refl
  buffer-with_delta (some d) r =
      buffer-emit_calls d.deltas (emit_text d.content r) ∙ buffer-emit_text d.content r

  buffer-with_choices :
      (choices : List StreamChoice) (r : Reader Cost) → (with_choices choices r).buffer ≡ r.buffer
  unfolding with_choices with_choice
  buffer-with_choices [] r = refl
  buffer-with_choices (c ∷ choices) r =
      buffer-with_choices choices (with_choice c r) ∙ buffer-with_delta c.delta _

  buffer-on_event :
      (o : Option (StreamEvent Cost)) (r : Reader Cost) → (on_event o r).buffer ≡ r.buffer
  unfolding with_event
  buffer-on_event none r = refl
  buffer-on_event (some event) r = buffer-with_choices event.choices _

  module _ (trim : String → String) (from_str : String → Option (StreamEvent Cost)) where
    buffer-if :
        (b : Bool) (x y : Reader Cost × Bool) (s : String)
        → x.0.buffer ≡ s
        → y.0.buffer ≡ s
        → (if b then x else y).0.buffer ≡ s
    buffer-if true x y s hx hy = hx
    buffer-if false x y s hx hy = hy

    buffer-on_data :
        (o : Option String) (r : Reader Cost) → (on_data trim from_str o r).0.buffer ≡ r.buffer
    buffer-on_data none r = refl
    buffer-on_data (some d) r =
        buffer-if (trim d == "[DONE]") _ _ r.buffer refl (buffer-on_event (from_str (trim d)) r)

    buffer-on_line :
        (line : String) (r : Reader Cost) → (on_line trim from_str line r).0.buffer ≡ r.buffer
    unfolding on_line
    buffer-on_line line r =
        buffer-if ((line == "") || starts_with line ":") _ _ r.buffer refl
          (buffer-on_data (strip_prefix line "data: ") r)

    split_line-empty : (s : String) → chars s ≤ 0 → split_line s ≡ none
    unfolding split_line
    split_line-empty String.[] h = refl
    split_line-empty (String.◌∷◌ c s) h = absurd (omega arith)

    -- The `while` loop without fuel: `Loops r r'` when it starts at `r` and ends at `r'`. It ends where
    -- the buffer has no newline or after the line with the end mark, and every pass takes its line off the buffer.
    pub data Loops : Reader Cost → Reader Cost → Type 0 where
      no_newline : (r : Reader Cost) → split_line r.buffer ≡ none → Loops r r
      done :
          (r : Reader Cost) (line after : String) (end : Reader Cost)
          → split_line r.buffer ≡ some (line, after)
          → on_line trim from_str (trim line) (record r { buffer = after }) ≡ (end, false)
          → Loops r end
      pass :
          (r : Reader Cost) (line after : String) (next end : Reader Cost)
          → split_line r.buffer ≡ some (line, after)
          → on_line trim from_str (trim line) (record r { buffer = after }) ≡ (next, true)
          → Loops next end
          → Loops r end

    passes :
        (r : Reader Cost) (line after : String) (p : Reader Cost × Bool) (rest : Reader Cost)
        → split_line r.buffer ≡ some (line, after)
        → on_line trim from_str (trim line) (record r { buffer = after }) ≡ p
        → Loops (p.0) rest
        → Loops r (if p.1 then rest else p.0)
    passes r line after (next, true) rest e o h = pass r line after next rest e o h
    passes r line after (next, false) rest e o h = done r line after next e o

    abbrev by_split :
        (Reader Cost → Reader Cost) → Reader Cost → Option (String × String) → Reader Cost
    by_split again r none = r
    by_split again r (some (line, after)) =
        let (r', more) = on_line trim from_str (trim line) (record r { buffer = after }) in
        if more then again r' else r'

    by_split-Loops :
        (again : Reader Cost → Reader Cost) (r : Reader Cost) (o : Option (String × String))
        → split_line r.buffer ≡ o
        → ((r' : Reader Cost) → chars r'.buffer < chars r.buffer → Loops r' (again r'))
        → Loops r (by_split again r o)
    by_split-Loops again r none e later = no_newline r e
    by_split-Loops again r (some (line, after)) e later =
        let p = on_line trim from_str (trim line) (record r { buffer = after }) in
        let kept = buffer-on_line (trim line) (record r { buffer = after }) in
        passes r line after p (again p.0) e refl
          (later p.0 (omega (arith, split_line-shorter r.buffer line after e, ap chars kept)))

    read_lines-by_split :
        (n : ℕ) (r : Reader Cost)
        → read_lines trim from_str (suc n) r
          ≡ by_split (read_lines trim from_str n) r (split_line r.buffer)
    unfolding read_lines
    read_lines-by_split n r =
        elim (split_line r.buffer)
          as (λ o.
            (elim o [
              | none ↦ r
              | some (line, after) ↦
                  let (r', more) =
                    on_line trim from_str (trim line) (record r { buffer = after }) in
                  let rest = read_lines trim from_str n r' in if more then rest else r'
            ])
            ≡ by_split (read_lines trim from_str n) r o) [ none ↦ refl | some (line, after) ↦ refl ]

    read_lines-Loops :
        (n : ℕ) (r : Reader Cost) → chars r.buffer ≤ n → Loops r (read_lines trim from_str n r)
    unfolding read_lines
    read_lines-Loops zero r h = no_newline r (split_line-empty r.buffer h)
    read_lines-Loops (suc n) r h = subst (Loops r) (sym (read_lines-by_split n r)) (
        by_split-Loops (read_lines trim from_str n) r (split_line r.buffer) refl
          (λ r' shorter. read_lines-Loops n r' (omega arith)))

    -- The inner loop ends on every chunk: what `read_chunk` gives is where the `while` loop over the
    -- grown buffer ends, which has run until the buffer had no newline or a line had the end mark, each pass
    -- taking its line off the buffer. The fuel is never what stops it.
    pub read_chunk-Loops :
        (chunk : String) (r : Reader Cost)
        → Loops (record r { buffer = push_str r.buffer chunk }) (read_chunk trim from_str chunk r)
    unfolding read_chunk
    read_chunk-Loops chunk r =
        read_lines-Loops (chars (push_str r.buffer chunk))
          (record r { buffer = push_str r.buffer chunk }) (omega arith)
