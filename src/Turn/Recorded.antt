-- ===== src/Turn/Recorded.antt =====
-- loop/src/agentic_loop.rs: a service that keeps a log of what the loop has sent and asked, the
-- newest event first, around any service.
use overacp.Prelude.{
  Bool, List, String, [], false, nat_eq, string_eq, suc, true, ℕ, ◌&&◌, ◌==◌, ◌∷◌,
}
use overacp.Turn.{AcpService}

pub data TurnEvent : Type 0 where
  text_sent activity_sent compaction_sent quota_asked usage_sent beat_sent turn_ended : TurnEvent
  call_announced : String → TurnEvent
  tool_asked : String → TurnEvent
  result_sent : String → TurnEvent

module _ {S : Type 0} where
  abbrev pub logged : {A : Type 0} → TurnEvent → A × S → List TurnEvent → A × (S × List TurnEvent)
  logged e (a, s) log = (a, (s, e ∷ log))

  unfoldable pub logging :
      {Cost : Type 0} → AcpService S Cost → AcpService (S × List TurnEvent) Cost
  logging service = record {
    stream_text_delta = λ t (s, log). logged text_sent (service.stream_text_delta t s) log;
    stream_activity = λ t (s, log). logged activity_sent (service.stream_activity t s) log;
    stream_tool_call =
        λ i name v (s, log). logged (call_announced i) (service.stream_tool_call i name v s) log;
    stream_tool_result =
        λ i v b (s, log). logged (result_sent i) (service.stream_tool_result i v b s) log;
    turn_end = λ ms u (s, log). logged turn_ended (service.turn_end ms u s) log;
    context_compacted =
        λ t ms u (s, log). logged compaction_sent (service.context_compacted t ms u s) log;
    quota_check = λ (s, log). logged quota_asked (service.quota_check s) log;
    quota_update = λ a b (s, log). logged usage_sent (service.quota_update a b s) log;
    heartbeat = λ (s, log). logged beat_sent (service.heartbeat s) log;
    tools_call = λ name v (s, log). logged (tool_asked name) (service.tools_call name v s) log;
  }

-- How often `turn/end` was sent, and whether it was the last event.
unfoldable pub turn_ends : List TurnEvent → ℕ
turn_ends [] = 0
turn_ends (turn_ended ∷ log) = suc (turn_ends log)
turn_ends (_ ∷ log) = turn_ends log

abbrev pub ends_turn : List TurnEvent → Bool
ends_turn [] = false
ends_turn (turn_ended ∷ log) = true
ends_turn (_ ∷ log) = false

-- Whether every result of a tool comes after the announcement of the same call, with at most the
-- request to the operator's tool between them, and no announcement is left without its result.
unfoldable pub bracketed : List TurnEvent → Bool
bracketed [] = true
bracketed (result_sent i ∷ call_announced j ∷ log) = i == j && bracketed log
bracketed (result_sent i ∷ tool_asked name ∷ call_announced j ∷ log) = i == j && bracketed log
bracketed (result_sent i ∷ _) = false
bracketed (call_announced i ∷ log) = false
bracketed (tool_asked name ∷ log) = false
bracketed (_ ∷ log) = bracketed log
