-- ===== src/Client/CacheSteps.antt =====
-- Every method keeps the cache of State objects within its limits.
use kmtproto.Prelude.{
  ℕ, List, [], ◌∷◌, ◌++◌, ◌+ℤ◌, pos, is_empty, delete, text_instance, arith, Text,
}
use kmtproto.Wire.{Envelope, StateObject, Json, ok, err, ErrorPayload}
use kmtproto.Client.{
  Client, Action, Outcome, Call, receives, step, deliver_all, remember_event, transport_connected,
  disconnect, check_heartbeat, heartbeat, start_session, start_resume, resume_session,
  resume_with_state, send_ping, query_state, enqueue_send, retry_pending, begin_connect,
  go_disconnected, begin_recovery, handle_incoming, settle, dispatch, handle_incoming_failure,
  stop_replay, stop_state_resume, reject_invalid, handle_welcome, handle_pong, handle_ack,
  handle_event, settle_error, react, react_to_error, abandon_session, store_answer, store_resumed,
  apply_state_objects, finish_state_resume, finish_replay, replay_event, replay_event_bytes,
}
use kmtproto.Client.Cases.{
  if_cases, dispatch_cases, handle_incoming_cases, handle_state_snapshot_cases,
  handle_state_update_cases, handle_error_cases,
}
use kmtproto.Client.CacheBounds.{IsWithin, total_bytes, apply_state_objects-IsWithin}

abbrev pub IsCached : Client → Type 0
IsCached c = IsWithin c.config c.state_objects c.state_bytes

abbrev Cached : Outcome → Type 0
Cached o = IsCached o.0

deliver_all-IsCached :
    (c : Client) (es : List Envelope) → IsCached c → IsCached (deliver_all c es).0
unfolding deliver_all remember_event
deliver_all-IsCached c [] h = h
deliver_all-IsCached c (e ∷ es) h =
    deliver_all-IsCached (remember_event (record c { last_seq = e.seq }) e.seq e.id) es h

module _ (json : Json) (c : Client) (h : IsCached c) where
  stored : (states : List StateObject) → IsCached (apply_state_objects json c states).0
  stored states = apply_state_objects-IsWithin json c states h

  store_answer-IsCached :
      (id : Text) (states : List StateObject) → IsCached (store_answer json c id states).0
  unfolding store_answer
  store_answer-IsCached id states = ground (arith, stored states)

  finish_state_resume-IsCached :
      (actions : List Action) → IsCached (finish_state_resume json c actions).0
  unfolding finish_state_resume
  finish_state_resume-IsCached actions = ground (arith, deliver_all-IsCached c c.replay_buffer h)

  handle_welcome-IsCached : (frame : Envelope) → IsCached (handle_welcome json c frame).0
  unfolding handle_welcome
  handle_welcome-IsCached frame = ground (arith, h)

  handle_pong-IsCached : (g : ℕ) (frame : Envelope) → IsCached (handle_pong json c g frame).0
  unfolding handle_pong
  handle_pong-IsCached g frame = ground (arith, h)

  handle_ack-IsCached : (frame : Envelope) → IsCached (handle_ack json c frame).0
  unfolding handle_ack
  handle_ack-IsCached frame = ground (arith, h)

  finish_replay-IsCached :
      (buffered : Client) → IsCached buffered → IsCached (finish_replay buffered).0
  unfolding finish_replay
  finish_replay-IsCached buffered b =
      ground (arith, deliver_all-IsCached buffered buffered.replay_buffer b)

  replay_event-IsCached : (frame : Envelope) → IsCached (replay_event c frame).0
  unfolding replay_event
  replay_event-IsCached frame =
      let buffered = record c {
        replay_buffer = c.replay_buffer ++ frame ∷ [];
        replay_bytes = c.replay_bytes +ℤ pos (replay_event_bytes frame);
      } in
      ground (arith, h, finish_replay-IsCached buffered h)

  handle_event-IsCached : (frame : Envelope) (now : ℕ) → IsCached (handle_event json c frame now).0
  unfolding handle_event
  handle_event-IsCached frame now = ground (arith, h, replay_event-IsCached frame)

  react-IsCached : (payload : ErrorPayload) → IsCached (react c payload).0
  unfolding react settle_error abandon_session go_disconnected total_bytes
  react-IsCached payload = ground (arith, h)

store_resumed-IsCached :
    (json : Json) (c : Client) (h : IsCached c) (states : List StateObject)
    → IsCached (store_resumed json c states).0
unfolding store_resumed stop_state_resume go_disconnected
store_resumed-IsCached json c h states = ground (
  arith,
  stored json c h states,
  finish_state_resume-IsCached json (apply_state_objects json c states).0 (stored json c h states),
)

react_to_error-IsCached :
    (json : Json) (c : Client) (h : IsCached c) (payload : ErrorPayload)
    → IsCached (react_to_error c payload).0
unfolding react_to_error
react_to_error-IsCached json c h payload =
    let kept = record c { state_queries = delete payload.ref_id c.state_queries } in
    if_cases Cached (is_empty payload.ref_id) (react c payload) (react kept payload)
      (react-IsCached json c h payload) (react-IsCached json kept h payload)

settle-IsCached : (o : Outcome) → IsCached o.0 → IsCached (settle o).0
unfolding handle_incoming_failure stop_replay stop_state_resume go_disconnected
settle-IsCached (c', ok actions) h = h
settle-IsCached (c', err e) h = ground (arith, h)

handle_incoming-IsCached :
    (json : Json) (c : Client) (h : IsCached c) (g : ℕ) (frame : Envelope) (now : ℕ)
    → IsCached (handle_incoming json c g frame now).0
unfolding reject_invalid handle_incoming_failure stop_replay stop_state_resume go_disconnected
handle_incoming-IsCached json c h g frame now =
    handle_incoming_cases Cached json c g frame now h (λ e. ground (arith, h))
      (λ e. ground (arith, h))
      (settle-IsCached (dispatch json frame.type c g frame now) (
        dispatch_cases Cached json c g frame now (handle_welcome-IsCached json c h frame)
          (handle_pong-IsCached json c h g frame) (handle_ack-IsCached json c h frame)
          (handle_event-IsCached json c h frame now)
          (handle_state_snapshot_cases Cached json c g frame now (λ e. h)
            (store_answer-IsCached json c h) (store_resumed-IsCached json c h))
          (handle_state_update_cases Cached json c g frame now (λ e. h) (stored json c h))
          (handle_error_cases Cached json c g frame now (λ reason. h)
            (react_to_error-IsCached json c h))
          (λ e. h) frame.type))

-- Whatever method is called, the cache of State objects stays within its two limits and its byte count
-- stays exact.
pub step-IsCached :
    (json : Json) (c : Client) (now : ℕ) (call : Call)
    → IsCached c
    → IsCached (step json c now call).0
unfolding step transport_connected disconnect check_heartbeat heartbeat start_session start_resume
    resume_session resume_with_state send_ping query_state enqueue_send retry_pending begin_connect
    go_disconnected begin_recovery
step-IsCached json c now (receives g frame) h = handle_incoming-IsCached json c h g frame now
step-IsCached json c now call h = ground (arith, h)
