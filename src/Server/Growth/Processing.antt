-- ===== src/Server/Growth/Processing.antt =====
-- processFrame enqueues valid frames only, and so do both ways to publish.
use kmtproto.Prelude.{if◌then◌else◌, List, Text, Option, none, some, true, false, [], lit}
use kmtproto.Wire.{
  FrameType, hello, welcome, ping, pong, send, ack, event, error, resume, state_query,
  state_snapshot, state_update, unknown, invalid_session, Envelope, Json, Result, ok, err, Err,
  StoreError, ProtocolError, as_protocol, replay_unavailable, replay_limit_exceeded,
  sequence_exhausted, state_snapshot_limit_exceeded, session_exists, outbound_closed,
}
use kmtproto.Capability.{SessionCapabilities}
use kmtproto.Outbound.{close}
use kmtproto.Validate.{validate_frame}
use kmtproto.Server.Types.{
  Ending, returns, errors, panics, Services, ServerConfig, ServerState, no_result, closed_result,
}
use kmtproto.Server.Monad.{perform, read_clock, set_result, ◌>>◌}
use kmtproto.Server.Frames.{close_outbound, enqueue_error}
use kmtproto.Server.Processing.{
  is_error, refuse_hello, creation_failed, greet_session, open_session, handle_hello, answer_ping,
  handle_ping, handle_by_type, refuse_frame, process_frame, guard_process, invoke_server_process,
}
use kmtproto.Server.Keeping.{bind-Keeps, then-Keeps, option-Keeps}
use kmtproto.Server.Growth.{IsSound, GrownQueue, sound_rules}
use kmtproto.Server.Growth.Sends.{handle_send-IsSound}
use kmtproto.Server.Growth.Resumes.{handle_resume-IsSound}
use kmtproto.Server.Growth.Queries.{handle_state_query-IsSound}

module _ {W : Type 0} (json : Json) (config : ServerConfig) (services : Services W)
    (old : List Envelope) where
  refuse_hello-IsSound :
      (frame : Envelope) (e : Err) (cause : Option ProtocolError)
      → IsSound json config services old (refuse_hello json config services frame e cause)
  refuse_hello-IsSound frame e none = search (sound_rules)
  refuse_hello-IsSound frame e (some p) = search (sound_rules)

  creation_failed-IsSound :
      (frame : Envelope) (e : Err) (cause : Option StoreError)
      → IsSound json config services old (creation_failed json config services frame e cause)
  creation_failed-IsSound frame e none = search (sound_rules)
  creation_failed-IsSound frame e (some replay_unavailable) = search (sound_rules)
  creation_failed-IsSound frame e (some replay_limit_exceeded) = search (sound_rules)
  creation_failed-IsSound frame e (some sequence_exhausted) = search (sound_rules)
  creation_failed-IsSound frame e (some state_snapshot_limit_exceeded) = search (sound_rules)
  creation_failed-IsSound frame e (some session_exists) = search (sound_rules)
  creation_failed-IsSound frame e (some outbound_closed) = search (sound_rules)

  greet_session-IsSound :
      (frame : Envelope) (accepted : SessionCapabilities) (session_id : Text) (first : Envelope)
      → IsSound json config services old
          (greet_session json config services frame accepted session_id first)
  greet_session-IsSound frame accepted session_id first =
      search (sound_rules, creation_failed-IsSound) depth 8

  open_session-IsSound :
      (frame : Envelope) (accepted : SessionCapabilities) (session_id : Text)
      → IsSound json config services old
          (open_session json config services frame accepted session_id)
  unfolding open_session
  open_session-IsSound frame accepted session_id = search (sound_rules, greet_session-IsSound)

  handle_hello-IsSound :
      (frame : Envelope)
      → IsSound json config services old (handle_hello json config services frame)
  unfolding handle_hello
  handle_hello-IsSound frame =
      search (sound_rules, refuse_hello-IsSound, open_session-IsSound) depth 8

  answer_ping-IsSound :
      (frame : Envelope) → IsSound json config services old (answer_ping json config services frame)
  answer_ping-IsSound frame = search (sound_rules) depth 7

  handle_ping-IsSound :
      (frame : Envelope) → IsSound json config services old (handle_ping json config services frame)
  unfolding handle_ping
  handle_ping-IsSound frame =
      let forget =
        set_result (record no_result { abandon_session = true })
        >> enqueue_error json config services frame.session_id [] invalid_session
            (lit "session expired or unknown") false in
      let P = GrownQueue json config services old in
      bind-Keeps P (read_clock services.now) _ (search sound_rules) (λ now.
        bind-Keeps P (perform (services.lookup_session frame.session_id now)) _ (search sound_rules)
          (λ session.
            option-Keeps P session forget _ (search sound_rules)
              (λ found. answer_ping-IsSound frame)))

  handle_by_type-IsSound :
      (t : FrameType) (frame : Envelope)
      → IsSound json config services old (handle_by_type json config services t frame)
  handle_by_type-IsSound hello frame = handle_hello-IsSound frame
  handle_by_type-IsSound ping frame = handle_ping-IsSound frame
  handle_by_type-IsSound send frame = handle_send-IsSound json config services old frame
  handle_by_type-IsSound state_query frame =
      handle_state_query-IsSound json config services old frame
  handle_by_type-IsSound resume frame = handle_resume-IsSound json config services old frame
  handle_by_type-IsSound welcome frame = search (sound_rules)
  handle_by_type-IsSound pong frame = search (sound_rules)
  handle_by_type-IsSound ack frame = search (sound_rules)
  handle_by_type-IsSound event frame = search (sound_rules)
  handle_by_type-IsSound error frame = search (sound_rules)
  handle_by_type-IsSound state_snapshot frame = search (sound_rules)
  handle_by_type-IsSound state_update frame = search (sound_rules)
  handle_by_type-IsSound (unknown t) frame = search (sound_rules)

  refuse_frame-IsSound :
      (frame : Envelope) (e : Err) (cause : Option ProtocolError)
      → IsSound json config services old (refuse_frame json config services frame e cause)
  refuse_frame-IsSound frame e none = search (sound_rules)
  refuse_frame-IsSound frame e (some p) = search (sound_rules)

  dispatch-IsSound :
      (frame : Envelope) (checked : Result (Unit {0}))
      → IsSound json config services old (elim checked [
        | ok u ↦ handle_by_type json config services frame.type frame
        | err e ↦
            if is_error frame.type
            then set_result closed_result >> close_outbound json config services
            else refuse_frame json config services frame e (as_protocol e)
      ])
  dispatch-IsSound frame (ok u) = handle_by_type-IsSound frame.type frame
  dispatch-IsSound frame (err e) = search (sound_rules, refuse_frame-IsSound)

  process_frame-IsSound :
      (frame : Envelope)
      → IsSound json config services old (process_frame json config services frame)
  unfolding process_frame
  process_frame-IsSound frame =
      then-Keeps (GrownQueue json config services old) (set_result no_result) _ (search sound_rules)
        (dispatch-IsSound frame (validate_frame json frame config.limits config.strict))

  guard-Grown :
      (s : ServerState W) (o : Ending (Unit {0}))
      → GrownQueue json config services old s.outbound
      → GrownQueue json config services old (guard_process json config services s o).0.outbound
  unfolding close
  guard-Grown s (returns u) h = h
  guard-Grown s (errors e) h = h
  guard-Grown s (panics t) h = record { new = h.new; sent = h.sent; valid = h.valid }

  pub invoke_server_process-IsSound :
      (frame : Envelope)
      → IsSound json config services old (invoke_server_process json config services frame)
  unfolding invoke_server_process
  invoke_server_process-IsSound frame = record {
    at = λ s h.
        guard-Grown (process_frame json config services frame s).0
          (process_frame json config services frame s).1 ((process_frame-IsSound frame).at s h);
  }
