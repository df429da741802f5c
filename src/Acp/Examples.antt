-- ===== src/Acp/Examples.antt =====
-- Tests of loop/src/acp.rs, and the theorems at a concrete client.
use overacp.Acp.Frames.{client_quota_check}
use overacp.Acp.Order.{FromFront, next_push-front}
use overacp.Acp.Pushes.{Readers, next_push, next_push-ends, proto_user}
use overacp.Acp.Queue.{queue}
use overacp.Acp.{
  AcpClient, Wire, Writer, await_response, count, fields, is_notification, send_request, text_json,
}
use overacp.Json.{Value, get_key, get_member, no_member, null, object, string}
use overacp.Prelude.Result.{ok}
use overacp.Prelude.{
  Option, String, [], arith, if◌then◌else◌, is_some, nat_eq, none, refl, some, string_eq, suc, true,
  ℕ, ◌==◌, ◌∷◌, ◌≡◌,
}

-- Two kinds of lines: a user's message and a response.
abbrev frame_of : String → Option Value
frame_of s =
    if s == "hello\n"
    then some (object (fields (("method", text_json "session/message") ∷ ("params", null) ∷ [])))
    else if s == "yes\n"
    then some (object (fields (("id", count 1) ∷ ("result", object no_member) ∷ [])))
    else none

abbrev small_wire : Wire
small_wire = record {
  from_str = frame_of;
  notification_from_str = λ s.
      if s == "hello\n" then some (record { method = "session/message"; params = null }) else none;
  response_from_value = λ v. some (record { result = get_key v "result"; error = none });
  to_string = λ v. "frame";
}

-- A writer that counts the frames.
abbrev counting : Writer ℕ
counting = record { write_all = λ s n. (ok tt, suc n); flush = λ n. (ok tt, n) }

abbrev small_client : AcpClient ℕ
small_client = record {
  reader = ok "hello\n" ∷ ok "yes\n" ∷ ok "yes\n" ∷ ok "hello\n" ∷ [];
  writer = 0;
  pending_notifications = [];
  request_id = 1;
}

abbrev small_readers : Readers
small_readers = record {
  params_from_value = λ v. some (record { role = proto_user; content = string "hello" });
  content_from_value = λ v. none;
}

-- The message that comes before the response waits.
quota_asked_first :
    (client_quota_check small_wire counting small_client).1.pending_notifications ≡ "hello\n" ∷ []
unfolding client_quota_check send_request await_response is_notification get_key get_member
quota_asked_first = refl

-- The second request, of number 2, takes the response with the id 1 for its own.
id_not_compared :
    (client_quota_check small_wire counting
      ((client_quota_check small_wire counting small_client).1)).0
    ≡ ok true
unfolding client_quota_check send_request await_response is_notification get_key get_member
id_not_compared = refl

next_push-ends_example : is_some (next_push small_wire small_readers 5 small_client) ≡ true
next_push-ends_example = next_push-ends small_wire small_readers 5 small_client (omega arith)

next_push-front_example :
    FromFront small_wire
      (queue small_wire small_client)
      (next_push small_wire small_readers 5 small_client)
next_push-front_example = next_push-front small_wire small_readers 5 small_client
