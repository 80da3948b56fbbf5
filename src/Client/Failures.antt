-- ===== src/Client/Failures.antt =====
-- Errors: a method that returns one has changed nothing.
use kmtproto.Prelude.{ℕ, ◌≡◌, refl, List, arith}
use kmtproto.Wire.{Json, ok, err, Err, Envelope, StateObject, StateQueryPayload}
use kmtproto.Client.Cases.{dispatch_cases, handle_incoming_cases}
use kmtproto.Client.{
  Client, Outcome, Call, begins_connect, receives, step, transport_connected, disconnect,
  check_heartbeat, start_session, resume_session, resume_with_state, send_ping, handle_incoming,
  query_state, enqueue_send, retry_pending, handle_incoming_failure, apply_state_objects,
  handle_state_update, answer_query, handle_resume_state_snapshot, handle_state_snapshot,
  handle_event, handle_welcome, handle_pong, handle_ack, handle_error, settle, reject_invalid,
}

abbrev pub UnchangedOnError : Client → Outcome → Type 0
UnchangedOnError c (c', ok actions) = Unit
UnchangedOnError c (c', err e) = c' ≡ c

module _ (json : Json) (c : Client) where
  apply_state_objects-Unchanged :
      (objects : List StateObject) → UnchangedOnError c (apply_state_objects json c objects)
  unfolding apply_state_objects
  apply_state_objects-Unchanged objects = ground arith

  handle_state_update-Unchanged :
      (frame : Envelope) → UnchangedOnError c (handle_state_update json c frame)
  unfolding handle_state_update apply_state_objects
  handle_state_update-Unchanged frame = ground arith

  answer_query-Unchanged :
      (frame : Envelope) (query : StateQueryPayload)
      → UnchangedOnError c (answer_query json c frame query)
  unfolding answer_query apply_state_objects
  answer_query-Unchanged frame query = ground arith

  handle_resume_state_snapshot-Unchanged :
      (frame : Envelope) → UnchangedOnError c (handle_resume_state_snapshot json c frame)
  unfolding handle_resume_state_snapshot apply_state_objects
  handle_resume_state_snapshot-Unchanged frame = ground arith

  handle_state_snapshot-Unchanged :
      (frame : Envelope) → UnchangedOnError c (handle_state_snapshot json c frame)
  unfolding handle_state_snapshot
  handle_state_snapshot-Unchanged frame = ground arith

  handle_welcome-Unchanged : (frame : Envelope) → UnchangedOnError c (handle_welcome json c frame)
  unfolding handle_welcome
  handle_welcome-Unchanged frame = ground arith

  handle_event-Unchanged :
      (frame : Envelope) (now : ℕ) → UnchangedOnError c (handle_event json c frame now)
  unfolding handle_event
  handle_event-Unchanged frame now = ground arith

  handle_error-Unchanged : (frame : Envelope) → UnchangedOnError c (handle_error json c frame)
  unfolding handle_error
  handle_error-Unchanged frame = ground arith

  handle_pong-Unchanged :
      (g : ℕ) (frame : Envelope) → UnchangedOnError c (handle_pong json c g frame)
  unfolding handle_pong
  handle_pong-Unchanged g frame = ground arith

  handle_ack-Unchanged : (frame : Envelope) → UnchangedOnError c (handle_ack json c frame)
  unfolding handle_ack
  handle_ack-Unchanged frame = ground arith

  failure-Unchanged : (e : Err) → UnchangedOnError c (handle_incoming_failure c e)
  unfolding handle_incoming_failure
  failure-Unchanged e = ground arith

  settle-Unchanged : (o : Outcome) → UnchangedOnError c o → UnchangedOnError c (settle o)
  settle-Unchanged (c', ok actions) h = tt
  settle-Unchanged (c', err e) h = rw h (failure-Unchanged e)

  invalid-Unchanged : (frame : Envelope) (e : Err) → UnchangedOnError c (reject_invalid c frame e)
  unfolding reject_invalid handle_incoming_failure
  invalid-Unchanged frame e = ground arith

  handle_incoming-Unchanged :
      (g : ℕ) (frame : Envelope) (now : ℕ) → UnchangedOnError c (handle_incoming json c g frame now)
  handle_incoming-Unchanged g frame now =
      handle_incoming_cases (UnchangedOnError c) json c g frame now refl (invalid-Unchanged frame)
        failure-Unchanged
        (settle-Unchanged _ (
          dispatch_cases (UnchangedOnError c) json c g frame now (handle_welcome-Unchanged frame)
            (handle_pong-Unchanged g frame) (handle_ack-Unchanged frame)
            (handle_event-Unchanged frame now) (handle_state_snapshot-Unchanged frame)
            (handle_state_update-Unchanged frame) (handle_error-Unchanged frame) (λ e. refl)
            frame.type))

-- If a method returns an error, the client is exactly as it was before the call.
pub step-error_unchanged :
    (json : Json) (c : Client) (now : ℕ) (call : Call) → UnchangedOnError c (step json c now call)
unfolding step transport_connected disconnect check_heartbeat start_session resume_session
    resume_with_state send_ping query_state enqueue_send retry_pending
step-error_unchanged json c now begins_connect = tt
step-error_unchanged json c now (receives g frame) = handle_incoming-Unchanged json c g frame now
step-error_unchanged json c now call = ground arith
