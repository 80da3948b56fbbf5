-- ===== src/Server/Processing.antt =====
-- server.go: handleHello, handlePing, processFrame and invokeServerProcess.
use kmtproto.Prelude.{
  ℤ, pos, pos_part, ◌+ℤ◌, ltb_ℤ, unix_milli, not, Bool, true, false, ◌||◌, ◌++◌, Text, [], none,
  some, Option, length, is_empty, valid_string, lit, if◌then◌else◌,
}
use kmtproto.Wire.{
  FrameType, hello, welcome, ping, pong, send, error, state_query, resume, Envelope,
  wire_version_v2, new_session, PingPayload, Json, decode_payload, Err, ProtocolError, as_protocol,
  plain, StoreError, session_exists, store_cause, behavior_for_error_code, internal,
  invalid_session, protocol_violation, refuse_if, ok, err,
}
use kmtproto.Capability.{SessionCapabilities, negotiate}
use kmtproto.Validate.{validate_frame, validate_outbound_frame}
use kmtproto.Server.Types.{
  Ending, returns, errors, panics, Services, ServerConfig, ServerState, no_result, closed_result,
}
use kmtproto.Server.Monad.{
  M, throw, of_result, rescue, read_clock, perform, set_result, ◌>>=◌, ◌>>◌,
}
use kmtproto.Server.Frames.{enqueue_frame, enqueue_error, close_outbound}
use kmtproto.Server.Sends.{handle_send}
use kmtproto.Server.Resumes.{handle_resume}
use kmtproto.Server.Queries.{handle_state_query}
use kmtproto.Outbound.{close}

abbrev pub is_error : FrameType → Bool
is_error error = true
is_error _ = false

module _ {W : Type 0} (json : Json) (config : ServerConfig) (services : Services W) where
  abbrev pub refuse_hello : Envelope → Err → Option ProtocolError → M W (Unit {0})
  refuse_hello frame e none = throw e
  refuse_hello frame e (some p) =
      set_result (record no_result { close = p.close })
      >> enqueue_error json config services [] frame.id p.code p.message p.retryable

  abbrev pub no_session : Envelope → Text → M W (Unit {0})
  no_session frame message = enqueue_error json config services [] frame.id internal message true

  abbrev pub creation_failed : Envelope → Err → Option StoreError → M W (Unit {0})
  creation_failed frame e (some session_exists) =
      no_session frame (lit "cannot allocate a unique session")
  creation_failed frame e _ = throw e

  abbrev pub greeting : Text → SessionCapabilities → ℤ → ℤ → Envelope
  greeting session_id accepted timestamp server_time = record {
    v = wire_version_v2;
    type = welcome;
    id = [];
    session_id = session_id;
    seq = 0;
    timestamp = timestamp;
    payload = json.encode_welcome (record {
      mode = new_session;
      server_time = server_time;
      resume_from = 0;
      replay_to = 0;
      state_sync = none;
      accepted_capabilities = accepted.selections;
    });
  }

  -- The WELCOME is checked before the Session is created.
  abbrev pub greet_session : Envelope → SessionCapabilities → Text → Envelope → M W (Unit {0})
  greet_session frame accepted session_id first = do
    of_result (validate_outbound_frame json first config.limits config.strict)
    created_at ← read_clock services.now
    rescue
        (perform (
          services.create_session (record {
            session_id = session_id;
            expires_at = pos_part (pos created_at +ℤ config.session_resume_ttl);
            capabilities = accepted;
          })))
        (λ e. creation_failed frame e (store_cause e))
        (λ u. do
          enqueue_frame json config services first
          set_result (record no_result { ready_session_id = session_id; capabilities = accepted }))

  -- Past the generation of the identifier. The two readings of the clock for the WELCOME come in the order
  -- of its fields.
  unfoldable pub open_session : Envelope → SessionCapabilities → Text → M W (Unit {0})
  unfolding store_cause
  open_session frame accepted session_id = do
    of_result (
        refuse_if
          (ltb_ℤ config.limits.max_session_id_length (pos (length session_id))
            || not (valid_string session_id))
          (plain (lit "kmtproto: generated session id exceeds limit")))
    sent_at ← read_clock services.now
    server_time ← read_clock services.now
    greet_session frame accepted session_id
        (greeting session_id accepted (unix_milli sent_at) (unix_milli server_time))

  unfoldable pub handle_hello : Envelope → M W (Unit {0})
  unfolding open_session as_protocol
  handle_hello frame = do
    offer ← of_result (decode_payload json json.decode_hello config.strict frame.payload)
    rescue (of_result (negotiate config.capabilities offer.capabilities config.limits))
        (λ e. refuse_hello frame e (as_protocol e))
        (λ accepted.
          rescue (perform services.new_session_id)
            (λ e. no_session frame (lit "cannot create session"))
            (λ id.
              if is_empty id
              then no_session frame (lit "cannot create session")
              else open_session frame accepted id))

  abbrev pub pong_frame : Text → PingPayload → ℤ → ℤ → Envelope
  pong_frame session_id asked timestamp server_time = record {
    v = wire_version_v2;
    type = pong;
    id = [];
    session_id = session_id;
    seq = 0;
    timestamp = timestamp;
    payload = json.encode_pong (record {
      ping_id = asked.ping_id;
      client_time = asked.client_time;
      server_time = server_time;
    });
  }

  abbrev pub answer_ping : Envelope → M W (Unit {0})
  answer_ping frame = do
    asked ← of_result (decode_payload json json.decode_ping config.strict frame.payload)
    sent_at ← read_clock services.now
    server_time ← read_clock services.now
    enqueue_frame json config services
        (pong_frame frame.session_id asked (unix_milli sent_at) (unix_milli server_time))

  unfoldable pub handle_ping : Envelope → M W (Unit {0})
  handle_ping frame = do
    now ← read_clock services.now
    session ← perform (services.lookup_session frame.session_id now)
    elim session [
      | some found ↦ answer_ping frame
      | none ↦ (do
        set_result (record no_result { abandon_session = true })
        enqueue_error json config services frame.session_id [] invalid_session
            (lit "session expired or unknown") false)
    ]

  abbrev pub handle_by_type : FrameType → Envelope → M W (Unit {0})
  handle_by_type hello frame = handle_hello frame
  handle_by_type ping frame = handle_ping frame
  handle_by_type send frame = handle_send json config services frame
  handle_by_type state_query frame = handle_state_query json config services frame
  handle_by_type resume frame = handle_resume json config services frame
  handle_by_type error frame = set_result closed_result >> close_outbound json config services
  handle_by_type _ frame =
      set_result closed_result
      >> enqueue_error json config services frame.session_id frame.id protocol_violation
          (lit "unexpected client frame type") false

  -- The ERROR for an invalid frame is sent if it can be.
  abbrev pub refuse_frame : Envelope → Err → Option ProtocolError → M W (Unit {0})
  refuse_frame frame e none = throw e
  refuse_frame frame e (some p) =
      let closing = p.close || (behavior_for_error_code p.code).0.close_connection in
      rescue
        (enqueue_error json config services frame.session_id frame.id p.code p.message p.retryable)
        (λ x. set_result (record no_result { close = closing }))
        (λ u. set_result (record no_result { close = closing }))

  unfoldable pub process_frame : Envelope → M W (Unit {0})
  unfolding handle_hello handle_ping handle_send handle_state_query handle_resume as_protocol
  process_frame frame =
      set_result no_result >> (elim (validate_frame json frame config.limits config.strict) [
        | ok u ↦ handle_by_type frame.type frame
        | err e ↦
            if is_error frame.type
            then set_result closed_result >> close_outbound json config services
            else refuse_frame frame e (as_protocol e)
      ])

  -- The last `recover()`: a panic closes the queue.
  abbrev pub guard_process : ServerState W → Ending (Unit {0}) → ServerState W × Ending (Unit {0})
  guard_process s (returns u) = (s, returns u)
  guard_process s (errors e) = (s, errors e)
  guard_process s (panics t) = (
    record s { outbound = close s.outbound; result = closed_result },
    errors (plain (lit "kmtproto: server dependency panicked: " ++ t)),
  )

  unfoldable pub invoke_server_process : Envelope → M W (Unit {0})
  unfolding process_frame close
  invoke_server_process frame s = guard_process (process_frame frame s).0 (process_frame frame s).1
