-- ===== src/Supervisor/Examples.antt =====
-- Tests of agent/src/{run,bridge,tunnel}.rs, and the theorems at a concrete run.
-- The world is a log of what was done, the newest first.
use overacp.Prelude.Result.{err, ok}
use overacp.Prelude.Texts.{push_str}
use overacp.Prelude.{List, String, [], length, map, none, refl, some, ℕ, ◌++◌, ◌∷◌, ◌≡◌}
use overacp.Supervisor.Backoff.{
  InBounds, backoff_secs, connect_from, connect_with_retry, connect_with_retry-first, failures,
}
use overacp.Supervisor.Bridge.{
  BridgeEvent, child_end, ends_with_newline, frame_text, from_child, from_tunnel, on_bridge_event,
  run_bridge, tunnel_end, write_frame,
}
use overacp.Supervisor.Forwards.{
  line_pieces, run_bridge-forwards, sending, taking, to_child, to_tunnel,
}
use overacp.Supervisor.{World, reap_child, run_with}

abbrev noted : {A : Type 0} → String → A → List String → A × List String
noted s a log = (a, s ∷ log)

abbrev small_world : World (List String) ℕ ℕ
small_world = record {
  pull = noted "pull" (ok tt);
  push = noted "push" (ok tt);
  peek_claims = λ token. ok "7";
  attempts = λ url token log. err "refused" ∷ err "refused" ∷ ok 1 ∷ [];
  spawn = noted "spawn" (ok 2);
  stdin_of = λ child. record { write_all = λ s. noted s (ok tt); flush = noted "flush" (ok tt) };
  send_frame = λ conn s. noted s (ok tt);
  trim_end = λ s. s;
  interleaving = λ conn child log.
      from_tunnel (ok (frame_text "in"))
      ∷ from_child (ok "out")
      ∷ tunnel_end
      ∷ from_child (ok "late")
      ∷ [];
  try_wait = λ child. noted "try_wait" (ok none);
  kill = λ child. noted "kill" (ok tt);
  wait = λ child. noted "wait" (ok 0);
}

-- The tunnel ends, so the child is killed and reaped before the workspace is pushed.
whole_run :
    run_with small_world "token" (λ agent_id. push_str "ws://b/tunnel/" agent_id) []
    ≡ some (
      ok tt,
      "push" ∷ "wait" ∷ "kill" ∷ "try_wait" ∷ "out" ∷ "flush" ∷ "\n" ∷ "in" ∷ "spawn" ∷ "pull" ∷ [],
    )
unfolding run_with connect_with_retry connect_from run_bridge on_bridge_event write_frame
    ends_with_newline reap_child
whole_run = refl

abbrev socket : String
socket = "socket"

waits_grow :
    (connect_from 0 (err "a" ∷ err "a" ∷ err "a" ∷ err "a" ∷ err "a" ∷ err "a" ∷ ok socket ∷ [])).1
    ≡ 1 ∷ 2 ∷ 4 ∷ 8 ∷ 16 ∷ 30 ∷ []
unfolding connect_from backoff_secs
waits_grow = refl

connect_with_retry-first_example :
    ((connect_with_retry (failures ("a" ∷ "b" ∷ []) ++ ok socket ∷ [])).0 ≡ some socket)
    × (length ((connect_with_retry (failures ("a" ∷ "b" ∷ []) ++ ok socket ∷ [])).1) ≡ 2)
    × InBounds ((connect_with_retry (failures ("a" ∷ "b" ∷ []) ++ ok socket ∷ [])).1)
connect_with_retry-first_example = connect_with_retry-first ("a" ∷ "b" ∷ []) socket []

abbrev some_events : List BridgeEvent
some_events = from_child (ok "a") ∷ from_tunnel (ok (frame_text "b")) ∷ child_end ∷ []

run_bridge-forwards_example :
    (run_bridge taking sending (λ s. s) some_events ([], [])).1
    ≡ (line_pieces (to_child some_events), map (λ s. s) (to_tunnel some_events))
run_bridge-forwards_example = run_bridge-forwards (λ s. s) some_events [] []
