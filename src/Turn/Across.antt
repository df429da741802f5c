-- ===== src/Turn/Across.antt =====
-- loop/src/main.rs: the history from turn to turn.
-- A message without calls that answers no call.
use overacp.Acp.Pushes.{
  NextPush, Readers, SessionMessageParams, message_content, push_of_params, pushed_cancel,
  pushed_message, session_message_to_llm_message,
}
use overacp.Acp.{Wire}
use overacp.Json.{Value}
use overacp.Llm.Compaction.Pairs.{answers_all, answers_open}
use overacp.Llm.Compaction.{by_role, pending}
use overacp.Llm.Resolve.{Files, resolve_file_urls, resolve_file_urls_in_message}
use overacp.Llm.Types.{Message, Role, assistant, system, tool, user}
use overacp.Prelude.Result.{Result, Result-cases, err, map_ok, ok}
use overacp.Prelude.{
  List, Option, Option-cases, String, [], ap, inl, inr, none, refl, some, true, ℕ, ◌&&◌, ◌++◌, ◌∙◌,
  ◌∷◌, ◌≡◌,
}
use overacp.Turn.Invariant.{if_kept}
use overacp.Turn.Outer.{
  Session, after_turn, first_messages, on_push, outer_loop, starts_with_system, take_turn,
}
use overacp.Turn.Outputs.{system_msg}
use overacp.Turn.Pairing.{AnswersWell, Paired, answers_all-snoc, pending-snoc}
use overacp.Turn.Turns.{run-Paired}
use overacp.Turn.{AcpService, Codec, LoopConfig, LoopError, Round, Tools, failed, panicked}

abbrev PlainMessage : Message → Type 0
PlainMessage m = (m.tool_calls ≡ none) × (m.tool_call_id ≡ none)

-- What `next_push` is relied on for, which `session_message_to_llm_message` gives.
abbrev pub PlainPush : Result String NextPush → Type 0
PlainPush (ok (pushed_message m)) = PlainMessage m
PlainPush (ok pushed_cancel) = Unit
PlainPush (err e) = Unit

plain-answers :
    (r : Role) (m : Message) (ids : List String)
    → m.tool_call_id ≡ none
    → answers_open r m.tool_call_id ids ≡ true
plain-answers tool m ids e = rw e refl
plain-answers user m ids e = refl
plain-answers system m ids e = refl
plain-answers assistant m ids e = refl

plain-by_role :
    (r : Role) (m : Message) (ids : List String) → PlainMessage m → by_role r m ids ≡ ids
plain-by_role tool m ids (calls, id) = rw id refl
plain-by_role user m ids h = refl
plain-by_role system m ids h = refl
plain-by_role assistant m ids (calls, id) = rw calls refl

plain-Paired :
    (ms : List Message) (m : Message) → PlainMessage m → Paired ms → Paired (ms ++ m ∷ [])
plain-Paired ms m p (h, k) = (
  answers_all-snoc [] ms m h (plain-answers m.role m (pending ms []) p.1),
  pending-snoc [] ms m ∙ plain-by_role m.role m (pending ms []) p ∙ k,
)

module _ (wire : Wire) (readers : Readers) where
  converted-PlainPush :
      (p : SessionMessageParams)
      → PlainPush (map_ok pushed_message (session_message_to_llm_message wire readers p))
  unfolding session_message_to_llm_message
  converted-PlainPush p = elim (Result-cases (message_content wire readers p.content)) [
    | inl (c, e) ↦ rw e (refl, refl)
    | inr (x, e) ↦ rw e tt
  ]

  -- The message of every push that is read from the params of a notification makes no call and
  -- answers none.
  pub push_of_params-PlainPush : (v : Value) → PlainPush (push_of_params wire readers v)
  unfolding push_of_params
  push_of_params-PlainPush v = elim (Option-cases (readers.params_from_value v)) [
    | inl e ↦ rw e tt
    | inr (p, e) ↦ rw e (converted-PlainPush p)
  ]

module _ {S R Cost : Type 0} (service : AcpService S Cost)
    (next_push : S → Result String NextPush × S) (registry : Tools R) (codec : Codec)
    (add_cost : Cost → Cost → Cost) (no_cost : Cost) (config : LoopConfig) (files : Files) where
  abbrev pub EndsPaired : Option (Result LoopError Unit × Session S R) → Type 0
  EndsPaired none = Unit
  EndsPaired (some (r, session)) = Paired session.history

  take_turn-Paired :
      (rounds : ℕ → Round Cost) (m : Message) (session : Session S R)
      → ((n : ℕ) → AnswersWell (rounds n))
      → PlainMessage m
      → Paired session.history
      → Paired (
          (take_turn service next_push registry codec add_cost no_cost config files rounds m
            session).1.history)
  unfolding resolve_file_urls_in_message
  take_turn-Paired rounds m session well p h =
      run-Paired service registry codec add_cost config rounds no_cost session.acp session.tools
        (session.history ++ resolve_file_urls_in_message files m ∷ []) well
        (plain-Paired session.history (resolve_file_urls_in_message files m) p h)

  abbrev pub AllAnswerWell : List (ℕ → Round Cost) → Type 0
  AllAnswerWell [] = Unit
  AllAnswerWell (rounds ∷ turns) = ((n : ℕ) → AnswersWell (rounds n)) × AllAnswerWell turns

  after_turn-EndsPaired :
      (p : Result LoopError Unit × Session S R)
      (rest : Session S R → Option (Result LoopError Unit × Session S R))
      → Paired ((p.1).history)
      → ((later : Session S R) → Paired later.history → EndsPaired (rest later))
      → EndsPaired
          (after_turn service next_push registry codec add_cost no_cost config files p rest)
  after_turn-EndsPaired (ok u, session) rest h k = k session h
  after_turn-EndsPaired (err (failed e), session) rest h k = k session h
  after_turn-EndsPaired (err panicked, session) rest h k = h

  on_push-EndsPaired :
      (rounds : ℕ → Round Cost) (p : Result String NextPush × S) (session : Session S R)
      (rest : Session S R → Option (Result LoopError Unit × Session S R))
      → ((n : ℕ) → AnswersWell (rounds n))
      → PlainPush (p.0)
      → Paired session.history
      → ((later : Session S R) → Paired later.history → EndsPaired (rest later))
      → EndsPaired (
          on_push service next_push registry codec add_cost no_cost config files rounds p session
            rest)
  on_push-EndsPaired rounds (err e, acp) session rest well plain_push h k = h
  on_push-EndsPaired rounds (ok pushed_cancel, acp) session rest well plain_push h k = h
  on_push-EndsPaired rounds (ok (pushed_message m), acp) session rest well plain_push h k =
      after_turn-EndsPaired _ rest
        (take_turn-Paired rounds m (record session { acp = acp }) well plain_push h) k

  -- If in every turn the streamed messages are an assistant's with different ids, no pushed message
  -- makes or answers a call, and in the history at the start every answer has its call and every
  -- call its answer, then the same is true of the history whenever the loop over the turns ends,
  -- whatever the turns do and whichever of them fail.
  pub outer_loop-EndsPaired :
      (turns : List (ℕ → Round Cost)) (session : Session S R)
      → AllAnswerWell turns
      → ((s : S) → PlainPush ((next_push s).0))
      → Paired session.history
      → EndsPaired
          (outer_loop service next_push registry codec add_cost no_cost config files turns session)
  unfolding outer_loop
  outer_loop-EndsPaired [] session well plain_push h = tt
  outer_loop-EndsPaired (rounds ∷ turns) session (well, later) plain_push h =
      on_push-EndsPaired rounds (next_push session.acp) session _ well (plain_push session.acp) h
        (λ after paired. outer_loop-EndsPaired turns after later plain_push paired)

by_role-resolved :
    (files : Files) (r : Role) (m : Message) (ids : List String)
    → by_role r (resolve_file_urls_in_message files m) ids ≡ by_role r m ids
unfolding resolve_file_urls_in_message
by_role-resolved files tool m ids = refl
by_role-resolved files user m ids = refl
by_role-resolved files system m ids = refl
by_role-resolved files assistant m ids = refl

pending-resolved :
    (files : Files) (ms : List Message) (ids : List String)
    → pending (resolve_file_urls files ms) ids ≡ pending ms ids
unfolding pending resolve_file_urls resolve_file_urls_in_message
pending-resolved files [] ids = refl
pending-resolved files (m ∷ ms) ids =
    ap (pending (resolve_file_urls files ms)) (by_role-resolved files m.role m ids)
    ∙ pending-resolved files ms (by_role m.role m ids)

answers_all-resolved :
    (files : Files) (ms : List Message) (ids : List String)
    → answers_all ids (resolve_file_urls files ms) ≡ answers_all ids ms
unfolding answers_all resolve_file_urls resolve_file_urls_in_message
answers_all-resolved files [] ids = refl
answers_all-resolved files (m ∷ ms) ids =
    ap (λ l. answers_open m.role m.tool_call_id ids && answers_all l (resolve_file_urls files ms))
      (by_role-resolved files m.role m ids)
    ∙ ap (λ b. answers_open m.role m.tool_call_id ids && b)
        (answers_all-resolved files ms (by_role m.role m ids))

-- The history that the agent starts with has paired calls if the boot answer's has.
pub first_messages-Paired :
    (files : Files) (system_prompt : String) (ms : List Message)
    → Paired ms
    → Paired (first_messages files system_prompt ms)
unfolding first_messages system_msg answers_all pending
first_messages-Paired files system_prompt ms (h, k) =
    let resolved : Paired (resolve_file_urls files ms) =
      (answers_all-resolved files ms [] ∙ h, pending-resolved files ms [] ∙ k) in
    if_kept Paired (starts_with_system (resolve_file_urls files ms)) _ _ resolved resolved
