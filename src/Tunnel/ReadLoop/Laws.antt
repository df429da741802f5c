-- ===== src/Tunnel/ReadLoop/Laws.antt =====
-- server/src/tunnel/run.rs: what the read loop does with the texts of a connection.
-- The texts that are read before the loop ends.
use mathlib.Core.List.{append-nil, append_assoc}
use overacp.Auth.{Claims}
use overacp.Broker.Sessions.{send_all-open}
use overacp.Broker.{send_all}
use overacp.Channels.{Mpsc}
use overacp.Json.{Serde}
use overacp.Prelude.{
  List, Option, String, Uuid, [], ap, false, if◌then◌else◌, none, refl, some, subst, sym, ℕ, ◌++◌,
  ◌∙◌, ◌∷◌, ◌≡◌,
}
use overacp.Tunnel.Dispatch.{handle_message}
use overacp.Tunnel.Hooks.{Hooks}
use overacp.Tunnel.ReadLoop.{
  Served, WsEvent, control_signal, fan_out, is_fanned_out, on_text, read_loop, send_answer,
  touch_agent, ws_close, ws_failed, ws_ignored, ws_text,
}
use overacp.Tunnel.Streams.{Broadcast, StreamBroker, publish}
use overacp.Turn.Calls.{answer}

unfoldable pub texts_read : List (ℕ × WsEvent) → List String
texts_read [] = []
texts_read ((now, ws_text t) ∷ events) = t ∷ texts_read events
texts_read ((now, ws_ignored) ∷ events) = texts_read events
texts_read ((now, _) ∷ events) = []

abbrev given : Option String → List String
given none = []
given (some response) = response ∷ []

module _ {S : Type 0} (serde : Serde) (hooks : Hooks S) (claims : Claims) where
  -- The responses to a list of texts, one after the other, and the state of the operator's hooks.
  unfoldable pub responses : List String → S → List String
  responses [] s = []
  responses (t ∷ ts) s =
      let (answer, after) = handle_message serde hooks claims t s in
      given answer ++ responses ts after

  unfoldable pub hooks_after : List String → S → S
  hooks_after [] s = s
  hooks_after (t ∷ ts) s = hooks_after ts ((handle_message serde hooks claims t s).1)

module _ (bc : Broadcast) where
  -- Those of the texts that are fanned out, published in their order.
  unfoldable pub publish_all : Uuid → List String → StreamBroker bc → StreamBroker bc
  publish_all agent_id [] b = b
  publish_all agent_id (t ∷ ts) b =
      publish_all agent_id ts (if is_fanned_out t then publish bc agent_id t b else b)

module _ {S : Type 0} (ch : Mpsc) (bc : Broadcast) (serde : Serde) (hooks : Hooks S)
    (claims : Claims) where
  open ch use {queued, is_closed}

  -- What holds of the channel, the streams and the hooks after a text or a list of them.
  abbrev pub Answers :
      ch.Tx → List String → StreamBroker bc → S → Served ch bc S → Served ch bc S → Type 0
  Answers tx sent_frames streams s before after =
      (queued tx after.broker.chans ≡ queued tx before.broker.chans ++ sent_frames)
      × (is_closed tx after.broker.chans ≡ false)
      × (after.streams ≡ streams)
      × (after.operator ≡ s)

  send_answer-Answers :
      (tx : ch.Tx) (p : Option String × S) (st : Served ch bc S)
      → is_closed tx st.broker.chans ≡ false
      → Answers tx (given (p.0)) st.streams (p.1) st (send_answer ch bc serde hooks claims tx p st)
  unfolding send_all
  send_answer-Answers tx (none, s) st o = (sym (append-nil _), o, refl, refl)
  send_answer-Answers tx (some response, s) st o =
      let (q, still, n) = send_all-open ch tx (response ∷ []) st.broker.chans o in
      (q, still, refl, refl)

  abbrev RestAnswers :
      ch.Tx → List String → StreamBroker bc → S → Served ch bc S → Served ch bc S → Type 0
  RestAnswers tx ts b s before after =
      Answers tx (responses serde hooks claims ts s) (publish_all bc claims.sub ts b)
        (hooks_after serde hooks claims ts s) before after

  Answers-then :
      (tx : ch.Tx) (first : List String) (ts : List String) (b : StreamBroker bc) (s : S)
      (before between after : Served ch bc S)
      → Answers tx first b s before between
      → (is_closed tx between.broker.chans ≡ false
          → RestAnswers tx ts between.streams between.operator between after)
      → Answers tx
          (first ++ responses serde hooks claims ts s)
          (publish_all bc claims.sub ts b)
          (hooks_after serde hooks claims ts s)
          before
          after
  Answers-then tx first ts b s before between after (q, still, e, f) later =
      let (q', still', e', f') =
        subst (λ c. RestAnswers tx ts c s between after) e
          (subst (λ r. RestAnswers tx ts between.streams r between after) f (later still)) in
      (
        q' ∙ ap (λ l. l ++ responses serde hooks claims ts s) q ∙ append_assoc _ first _,
        still',
        e',
        f',
      )

  -- If the receiver of the tunnel's channel is there, then for every list of events the read loop puts
  -- the responses to the texts before its end behind the frames that wait, in the order of the texts,
  -- publishes for the agent those texts that are to be fanned out, in their order, and passes the
  -- operator's state through the hooks of all of them; what comes after the end has no effect.
  pub read_loop-Answers :
      (tx : ch.Tx) (events : List (ℕ × WsEvent)) (st : Served ch bc S)
      → is_closed tx st.broker.chans ≡ false
      → Answers tx
          (responses serde hooks claims (texts_read events) st.operator)
          (publish_all bc claims.sub (texts_read events) st.streams)
          (hooks_after serde hooks claims (texts_read events) st.operator)
          st
          (read_loop ch bc serde hooks claims tx events st)
  unfolding read_loop texts_read responses publish_all hooks_after on_text
  read_loop-Answers tx [] st o = (sym (append-nil _), o, refl, refl)
  read_loop-Answers tx ((now, ws_ignored) ∷ events) st o = read_loop-Answers tx events st o
  read_loop-Answers tx ((now, ws_close) ∷ events) st o = (sym (append-nil _), o, refl, refl)
  read_loop-Answers tx ((now, ws_failed) ∷ events) st o = (sym (append-nil _), o, refl, refl)
  read_loop-Answers tx ((now, control_signal) ∷ events) st o = (sym (append-nil _), o, refl, refl)
  read_loop-Answers tx ((now, ws_text t) ∷ events) st o =
      let p = handle_message serde hooks claims t st.operator in
      let fanned =
        fan_out ch bc serde hooks claims t (touch_agent ch bc serde hooks claims now st) in
      let served = on_text ch bc serde hooks claims tx now t st in
      Answers-then tx (given (p.0)) (texts_read events) fanned.streams (p.1) st served
        (read_loop ch bc serde hooks claims tx events served) (send_answer-Answers tx p fanned o)
        (read_loop-Answers tx events served)
