-- ===== src/Llm/Sse/Emitted.antt =====
-- loop/src/llm/client.rs: what `process_stream` says of its output agrees with what it put out, and
-- its inner loop ends.
-- The texts, put together.
use text.Mathlib.Text.{starts_with}
use overacp.Llm.Retry.{StreamError}
use overacp.Llm.Sse.{
  Delta, Reader, StreamChoice, StreamEvent, emit_calls, emit_text, on_data, on_event, on_line,
  process_stream, read_chunk, read_lines, split_line, with_choice, with_choices, with_delta,
  with_event,
}
use overacp.Llm.Stream.{ToolCallDelta}
use overacp.Prelude.Result.{Result, err, ok}
use overacp.Prelude.Texts.{push_str, strip_prefix}
use overacp.Prelude.{
  Bool, List, Option, String, [], ap, arith, false, if◌then◌else◌, nat_eq, none, refl, some,
  string_eq, suc, sym, true, zero, ℕ, ◌++◌, ◌==◌, ◌||◌, ◌∙◌, ◌∷◌, ◌≡◌,
}

abbrev pub all_text : String → List String → String
all_text s [] = s
all_text s (t ∷ ts) = all_text (push_str s t) ts

all_text-append :
    (s : String) (ts : List String) (t : String)
    → all_text s (ts ++ t ∷ []) ≡ push_str (all_text s ts) t
all_text-append s [] t = refl
all_text-append s (u ∷ ts) t = all_text-append (push_str s u) ts t

-- The recorded content is what was shown, and without output there are no calls.
pub record IsHonest {Cost : Type 0} (r : Reader Cost) : Type 0 where
  pub content : r.content ≡ all_text "" r.shown
  pub silent : r.emitted ≡ false → (r.shown ≡ []) × (r.calls ≡ [])

module _ {Cost : Type 0} where
  emit_text-IsHonest : (o : Option String) (r : Reader Cost) → IsHonest r → IsHonest (emit_text o r)
  emit_text-IsHonest none r h = h
  emit_text-IsHonest (some t) r h = record {
    content = ap (λ s. push_str s t) h.content ∙ sym (all_text-append "" r.shown t);
    silent = λ e. absurd (ground arith);
  }

  emit_calls-IsHonest :
      (o : Option (List ToolCallDelta)) (r : Reader Cost) → IsHonest r → IsHonest (emit_calls o r)
  emit_calls-IsHonest none r h = h
  emit_calls-IsHonest (some ds) r h = record {
    content = h.content;
    silent = λ e. absurd (ground arith);
  }

  with_delta-IsHonest :
      (o : Option Delta) (r : Reader Cost) → IsHonest r → IsHonest (with_delta o r)
  with_delta-IsHonest none r h = h
  with_delta-IsHonest (some d) r h =
      emit_calls-IsHonest d.deltas (emit_text d.content r) (emit_text-IsHonest d.content r h)

  with_choices-IsHonest :
      (choices : List StreamChoice) (r : Reader Cost)
      → IsHonest r
      → IsHonest (with_choices choices r)
  unfolding with_choices with_choice
  with_choices-IsHonest [] r h = h
  with_choices-IsHonest (c ∷ choices) r h =
      with_choices-IsHonest choices (with_choice c r)
        (with_delta-IsHonest c.delta _ (record { content = h.content; silent = h.silent }))

  on_event-IsHonest :
      (o : Option (StreamEvent Cost)) (r : Reader Cost) → IsHonest r → IsHonest (on_event o r)
  unfolding with_event
  on_event-IsHonest none r h = h
  on_event-IsHonest (some event) r h =
      with_choices-IsHonest event.choices _ (record { content = h.content; silent = h.silent })

  module _ (trim : String → String) (from_str : String → Option (StreamEvent Cost)) where
    if-IsHonest :
        (b : Bool) (x y : Reader Cost × Bool)
        → IsHonest x.0
        → IsHonest y.0
        → IsHonest (if b then x else y).0
    if-IsHonest true x y hx hy = hx
    if-IsHonest false x y hx hy = hy

    on_data-IsHonest :
        (o : Option String) (r : Reader Cost) → IsHonest r → IsHonest (on_data trim from_str o r).0
    on_data-IsHonest none r h = h
    on_data-IsHonest (some d) r h =
        if-IsHonest (trim d == "[DONE]") _ _ h (on_event-IsHonest (from_str (trim d)) r h)

    on_line-IsHonest :
        (line : String) (r : Reader Cost) → IsHonest r → IsHonest (on_line trim from_str line r).0
    unfolding on_line
    on_line-IsHonest line r h =
        if-IsHonest ((line == "") || starts_with line ":") _ _ h
          (on_data-IsHonest (strip_prefix line "data: ") r h)

    pick-IsHonest :
        (b : Bool) (x y : Reader Cost) → IsHonest x → IsHonest y → IsHonest (if b then x else y)
    pick-IsHonest true x y hx hy = hx
    pick-IsHonest false x y hx hy = hy

    read_lines-IsHonest :
        (fuel : ℕ) (r : Reader Cost) → IsHonest r → IsHonest (read_lines trim from_str fuel r)
    unfolding read_lines
    read_lines-IsHonest zero r h = h
    read_lines-IsHonest (suc fuel) r h =
        elim (split_line r.buffer)
          as (λ o. IsHonest (elim o [
            | none ↦ r
            | some (line, after) ↦
                let (r', more) = on_line trim from_str (trim line) (record r { buffer = after }) in
                let rest = read_lines trim from_str fuel r' in if more then rest else r'
          ])) [
            | none ↦ h
            | some (line, after) ↦
                let here =
                  on_line-IsHonest (trim line) (record r { buffer = after })
                    (record { content = h.content; silent = h.silent }) in
                pick-IsHonest _ _ _ (read_lines-IsHonest fuel _ here) here
          ]

    -- However `process_stream` ends, the content it has recorded is what was shown, put together; and
    -- where it says that nothing was emitted, nothing was shown and no tool call was begun.
    pub process_stream-IsHonest :
        (chunks : List (Result StreamError String)) (r : Reader Cost)
        → IsHonest r
        → IsHonest (process_stream trim from_str chunks r).0
    unfolding process_stream read_chunk
    process_stream-IsHonest [] r h = h
    process_stream-IsHonest (err e ∷ chunks) r h = h
    process_stream-IsHonest (ok chunk ∷ chunks) r h =
        process_stream-IsHonest chunks (read_chunk trim from_str chunk r)
          (read_lines-IsHonest _ _ (record { content = h.content; silent = h.silent }))
