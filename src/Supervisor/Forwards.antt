-- ===== src/Supervisor/Forwards.antt =====
-- agent/src/bridge.rs: what reaches the child and the tunnel, when the pipes take everything.
-- Pipes that never fail: the pieces written to the child, and the frames sent.
use mathlib.Core.List.{append-nil, append_assoc}
use overacp.Acp.{Writer}
use overacp.Prelude.Result.{Result, err, ok}
use overacp.Prelude.{
  Bool-cases, List, String, [], ap, arith, if◌then◌else◌, inl, inr, map, refl, sym, ◌++◌, ◌∙◌, ◌∷◌,
  ◌≡◌,
}
use overacp.Supervisor.Bridge.{
  BridgeEvent, child_end, ends_with_newline, frame_close, frame_ignored, frame_text, from_child,
  from_tunnel, on_bridge_event, run_bridge, tunnel_end, write_frame,
}

abbrev Pipes : Type 0
Pipes = List String × List String

abbrev pub taking : Writer Pipes
taking = record {
  write_all = λ s (pieces, frames). (ok tt, (pieces ++ s ∷ [], frames));
  flush = λ pipes. (ok tt, pipes);
}

abbrev pub sending : String → Pipes → Result String Unit × Pipes
sending s (pieces, frames) = (ok tt, (pieces, frames ++ s ∷ []))

-- The frames of the tunnel and the lines of the child before the bridge exits.
abbrev pub to_child : List BridgeEvent → List String
to_child [] = []
to_child (from_tunnel (ok (frame_text t)) ∷ events) = t ∷ to_child events
to_child (from_tunnel (ok frame_ignored) ∷ events) = to_child events
to_child (from_child (ok line) ∷ events) = to_child events
to_child (_ ∷ events) = []

abbrev pub to_tunnel : List BridgeEvent → List String
to_tunnel [] = []
to_tunnel (from_tunnel (ok (frame_text t)) ∷ events) = to_tunnel events
to_tunnel (from_tunnel (ok frame_ignored) ∷ events) = to_tunnel events
to_tunnel (from_child (ok line) ∷ events) = line ∷ to_tunnel events
to_tunnel (_ ∷ events) = []

-- A frame as the child reads it: one line, with its newline.
abbrev pub line_pieces : List String → List String
line_pieces [] = []
line_pieces (t ∷ ts) =
    let rest = line_pieces ts in if ends_with_newline t then t ∷ rest else t ∷ "\n" ∷ rest

nothing_more :
    (pieces frames : List String) → Path Pipes (pieces, frames) (pieces ++ [], frames ++ [])
nothing_more pieces frames =
    ap (λ p. (p, frames)) (sym (append-nil pieces))
    ∙ ap (λ f. (pieces ++ [], f)) (sym (append-nil frames))

write_frame-taking :
    (t : String) (pieces frames : List String)
    → write_frame taking t (pieces, frames) ≡ (ok tt, (pieces ++ line_pieces (t ∷ []), frames))
unfolding write_frame
write_frame-taking t pieces frames = elim (Bool-cases (ends_with_newline t)) [
  | inl e ↦ rw e refl
  | inr e ↦ rw e (ap (λ p. (ok tt, (p, frames))) (append_assoc pieces (t ∷ []) ("\n" ∷ [])))
]

line_pieces-cons :
    (t : String) (ts : List String) → line_pieces (t ∷ []) ++ line_pieces ts ≡ line_pieces (t ∷ ts)
line_pieces-cons t ts = ground arith

module _ (trim_end : String → String) where
  -- However the turns of the two halves are interleaved, if no pipe fails, then until the bridge exits
  -- the child gets every text of the tunnel in its order, each with one newline at its end added
  -- unless it has one, and the tunnel gets every line of the child in its order, trimmed at its end.
  pub run_bridge-forwards :
      (events : List BridgeEvent) (pieces frames : List String)
      → (run_bridge taking sending trim_end events (pieces, frames)).1
        ≡ (pieces ++ line_pieces (to_child events), frames ++ map trim_end (to_tunnel events))
  unfolding run_bridge on_bridge_event write_frame
  run_bridge-forwards [] pieces frames = nothing_more pieces frames
  run_bridge-forwards (from_tunnel (ok (frame_text t)) ∷ events) pieces frames =
      rw (write_frame-taking t pieces frames) (
        run_bridge-forwards events (pieces ++ line_pieces (t ∷ [])) frames
        ∙ ap (λ p. (p, frames ++ map trim_end (to_tunnel events)))
            (append_assoc pieces (line_pieces (t ∷ [])) (line_pieces (to_child events))
              ∙ ap (λ l. pieces ++ l) (line_pieces-cons t (to_child events))))
  run_bridge-forwards (from_tunnel (ok frame_ignored) ∷ events) pieces frames =
      run_bridge-forwards events pieces frames
  run_bridge-forwards (from_tunnel (ok frame_close) ∷ events) pieces frames =
      nothing_more pieces frames
  run_bridge-forwards (from_tunnel (err x) ∷ events) pieces frames = nothing_more pieces frames
  run_bridge-forwards (from_child (ok line) ∷ events) pieces frames =
      run_bridge-forwards events pieces (frames ++ trim_end line ∷ [])
      ∙ ap (λ f. (pieces ++ line_pieces (to_child events), f))
          (append_assoc frames (trim_end line ∷ []) (map trim_end (to_tunnel events)))
  run_bridge-forwards (from_child (err x) ∷ events) pieces frames = nothing_more pieces frames
  run_bridge-forwards (tunnel_end ∷ events) pieces frames = nothing_more pieces frames
  run_bridge-forwards (child_end ∷ events) pieces frames = nothing_more pieces frames
