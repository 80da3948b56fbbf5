-- ===== src/Client/Outbox.antt =====
-- The outbox of SEND frames: what can take an unacknowledged SEND out of it.
use kmtproto.Prelude.{
  Bool-cases, not, ◌&&◌, has_key, is_empty, ◌++◌, ◌+ℤ◌, pos, ℕ, ◌≡◌, ◌⊎◌, inl, inr, refl, Bool,
  true, false, ◌||◌, Text, List, [], ◌∷◌, some, lookup, lookup-insert, lookup-delete,
  has_key-lookup, delete, text_eq, text_eq_iff, text_instance, arith,
}
use kmtproto.Wire.{decode_payload, Json, Envelope, ok, err, ErrorPayload, StateObject}
use kmtproto.Client.{
  Client, Action, acked, close_connection, done, send_message_frame, Outcome, Call, enqueues_send,
  receives, step, actions_of, deliver_all, remember_event, transport_connected, disconnect,
  check_heartbeat, heartbeat, start_session, start_resume, resume_session, resume_with_state,
  send_ping, query_state, enqueue_send, retry_pending, begin_connect, go_disconnected,
  begin_recovery, handle_incoming, settle, dispatch, handle_incoming_failure, stop_replay,
  stop_state_resume, reject_invalid, handle_welcome, handle_pong, handle_ack, handle_event,
  settle_error, react, react_to_error, abandon_session, store_answer, store_resumed,
  apply_state_objects, finish_state_resume, finish_replay, replay_event_bytes, is_ready, is_suspect,
  replay_event,
}
use kmtproto.Client.Cases.{
  if_cases, Result-cases, dispatch_cases, handle_incoming_cases, handle_state_snapshot_cases,
  handle_state_update_cases, handle_error_cases,
}

-- Whether the application is told that the SEND is acknowledged.
unfoldable pub reports_ack : Text → List Action → Bool
reports_ack id [] = false
reports_ack id (acked i ∷ rest) = text_eq i id || reports_ack id rest
reports_ack id (_ ∷ rest) = reports_ack id rest

-- The SEND is still held, or its acknowledgement is reported, or the whole Session is abandoned.
abbrev pub IsAccounted : Text → Envelope → Outcome → Type 0
IsAccounted id frame o =
    (lookup id o.0.outbox ≡ some frame)
    ⊎ (reports_ack id (actions_of o.1) ≡ true)
    ⊎ ((o.0.session_id ≡ []) × (o.0.outbox ≡ []))

deliver_all-outbox : (c : Client) (es : List Envelope) → (deliver_all c es).0.outbox ≡ c.outbox
unfolding deliver_all remember_event
deliver_all-outbox c [] = refl
deliver_all-outbox c (e ∷ es) =
    deliver_all-outbox (remember_event (record c { last_seq = e.seq }) e.seq e.id) es

module _ (json : Json) (c : Client) where
  apply_state_objects-outbox :
      (states : List StateObject) → (apply_state_objects json c states).0.outbox ≡ c.outbox
  unfolding apply_state_objects
  apply_state_objects-outbox states = ground arith

  finish_state_resume-outbox :
      (actions : List Action) → (finish_state_resume json c actions).0.outbox ≡ c.outbox
  unfolding finish_state_resume
  finish_state_resume-outbox actions = ground (arith, deliver_all-outbox c c.replay_buffer)

  store_answer-outbox :
      (id : Text) (states : List StateObject) → (store_answer json c id states).0.outbox ≡ c.outbox
  unfolding store_answer
  store_answer-outbox id states = ground (arith, apply_state_objects-outbox states)

  handle_welcome-outbox : (frame : Envelope) → (handle_welcome json c frame).0.outbox ≡ c.outbox
  unfolding handle_welcome
  handle_welcome-outbox frame = ground arith

  handle_pong-outbox : (g : ℕ) (frame : Envelope) → (handle_pong json c g frame).0.outbox ≡ c.outbox
  unfolding handle_pong
  handle_pong-outbox g frame = ground arith

  finish_replay-outbox : (buffered : Client) → (finish_replay buffered).0.outbox ≡ buffered.outbox
  unfolding finish_replay
  finish_replay-outbox buffered = ground (arith, deliver_all-outbox buffered buffered.replay_buffer)

  replay_event-outbox : (frame : Envelope) → (replay_event c frame).0.outbox ≡ c.outbox
  unfolding replay_event
  replay_event-outbox frame = ground (
    arith,
    finish_replay-outbox (record c {
      replay_buffer = c.replay_buffer ++ frame ∷ [];
      replay_bytes = c.replay_bytes +ℤ pos (replay_event_bytes frame);
    }),
  )

  handle_event-outbox :
      (frame : Envelope) (now : ℕ) → (handle_event json c frame now).0.outbox ≡ c.outbox
  unfolding handle_event
  handle_event-outbox frame now = ground (arith, replay_event-outbox frame)

store_resumed-outbox :
    (json : Json) (c : Client) (states : List StateObject)
    → (store_resumed json c states).0.outbox ≡ c.outbox
unfolding store_resumed stop_state_resume
store_resumed-outbox json c states = ground (
  arith,
  apply_state_objects-outbox json c states,
  finish_state_resume-outbox json (apply_state_objects json c states).0,
)

module _ (json : Json) (c : Client) (id : Text) (sent : Envelope)
    (held : lookup id c.outbox ≡ some sent) where
  same-IsAccounted : (o : Outcome) → o.0.outbox ≡ c.outbox → IsAccounted id sent o
  same-IsAccounted o e = inl (rw e held)

  removed-IsAccounted :
      (ref : Text)
      → IsAccounted id sent (record c { outbox = delete ref c.outbox }, ok (acked ref ∷ []))
  unfolding reports_ack
  removed-IsAccounted ref = ground (arith, held, text_eq_iff ref id, lookup-delete ref id c.outbox)

  handle_ack-IsAccounted : (frame : Envelope) → IsAccounted id sent (handle_ack json c frame)
  unfolding handle_ack reports_ack
  handle_ack-IsAccounted frame =
      elim (Bool-cases (not (is_ready c.state) && not (is_suspect c.state))) [
        | inl b ↦ rw b (inl held)
        | inr b ↦
            rw b
              (elim (Result-cases
                (decode_payload json json.decode_ack c.config.strict_validation frame.payload)) [
                  | inr (e, r) ↦ rw r (inl held)
                  | inl (ref, r) ↦ rw r (elim (Bool-cases (not (has_key ref c.outbox))) [
                    | inl h ↦ rw h (inl held)
                    | inr h ↦ rw h (removed-IsAccounted ref)
                  ])
                ])
      ]

  react-IsAccounted :
      (left : Client) (payload : ErrorPayload)
      → left.outbox ≡ c.outbox
      → IsAccounted id sent (react left payload)
  unfolding react settle_error abandon_session go_disconnected
  react-IsAccounted left payload e = ground (arith, held)

  react_to_error-IsAccounted :
      (payload : ErrorPayload) → IsAccounted id sent (react_to_error c payload)
  unfolding react_to_error
  react_to_error-IsAccounted payload =
      if_cases (IsAccounted id sent) (is_empty payload.ref_id) (react c payload)
        (react (record c { state_queries = delete payload.ref_id c.state_queries }) payload)
        (react-IsAccounted c payload refl)
        (react-IsAccounted (record c { state_queries = delete payload.ref_id c.state_queries })
          payload refl)

  failure-IsAccounted : (o : Outcome) → IsAccounted id sent o → IsAccounted id sent (settle o)
  unfolding handle_incoming_failure stop_replay stop_state_resume go_disconnected reports_ack
  failure-IsAccounted (c', ok actions) h = h
  failure-IsAccounted (c', err e) h = ground arith

  handle_incoming-IsAccounted :
      (g : ℕ) (frame : Envelope) (now : ℕ)
      → IsAccounted id sent (handle_incoming json c g frame now)
  unfolding reject_invalid handle_incoming_failure stop_replay stop_state_resume go_disconnected
  handle_incoming-IsAccounted g frame now =
      let P = IsAccounted id sent in
      let closed : (reason : Text) → P (done (go_disconnected c) (close_connection reason ∷ [])) =
        λ reason. inl held in
      handle_incoming_cases P json c g frame now (inl held) (λ e. ground (arith, held))
        (λ e. ground (arith, held))
        (failure-IsAccounted (dispatch json frame.type c g frame now) (
          dispatch_cases P json c g frame now
            (same-IsAccounted (handle_welcome json c frame) (handle_welcome-outbox json c frame))
            (same-IsAccounted (handle_pong json c g frame) (handle_pong-outbox json c g frame))
            (handle_ack-IsAccounted frame)
            (same-IsAccounted (handle_event json c frame now)
              (handle_event-outbox json c frame now))
            (handle_state_snapshot_cases P json c g frame now (λ e. inl held)
              (λ query states.
                same-IsAccounted (store_answer json c query states)
                  (store_answer-outbox json c query states))
              (λ states.
                same-IsAccounted (store_resumed json c states)
                  (store_resumed-outbox json c states)))
            (handle_state_update_cases P json c g frame now (λ e. inl held)
              (λ states.
                same-IsAccounted (apply_state_objects json c states)
                  (apply_state_objects-outbox json c states)))
            (handle_error_cases P json c g frame now closed react_to_error-IsAccounted)
            (λ e. inl held) frame.type))

-- Whatever method is called: a SEND that the outbox holds stays there with its frame, unless the call
-- reports its acknowledgement to the application or abandons the whole Session.
pub step-IsAccounted :
    (json : Json) (c : Client) (now : ℕ) (call : Call) (id : Text) (sent : Envelope)
    → lookup id c.outbox ≡ some sent
    → IsAccounted id sent (step json c now call)
unfolding step transport_connected disconnect check_heartbeat heartbeat start_session start_resume
    resume_session resume_with_state send_ping query_state enqueue_send retry_pending begin_connect
    go_disconnected begin_recovery
step-IsAccounted json c now (receives g frame) id sent held =
    handle_incoming-IsAccounted json c id sent held g frame now
step-IsAccounted json c now (enqueues_send new content) id sent held = ground (
  arith,
  held,
  lookup-insert new id (send_message_frame json c new content now) c.outbox,
  text_eq_iff new id,
  has_key-lookup new c.outbox,
)
step-IsAccounted json c now call id sent held = ground (arith, held)
