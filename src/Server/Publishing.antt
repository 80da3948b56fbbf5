-- ===== src/Server/Publishing.antt =====
-- server.go: PublishEvent.
use kmtproto.Prelude.{
  ◌-◌, ◌^◌, ℤ, pos, ltb_ℤ, unix_milli, not, ◌||◌, Text, none, some, Option, length, is_empty,
  valid_string, text_eq, lit, if◌then◌else◌,
}
use kmtproto.Wire.{
  Envelope, event, wire_version_v2, EventPayload, Json, decode_payload, Result, err, plain,
  bad_request, invalid_session, new_protocol_error, refuse_if,
}
use kmtproto.Validate.{validate_outbound_frame}
use kmtproto.Store.{SessionState}
use kmtproto.Server.Types.{Services, ServerConfig}
use kmtproto.Server.Monad.{M, throw, of_result, read_clock, ◌>>=◌, ◌>>◌}
use kmtproto.Server.Frames.{enqueue_frame}
use kmtproto.Server.Callbacks.{lane_callback, run_stream}
use kmtproto.Server.Resumes.{is_event}
use kmtproto.Server.Stored.{wrap}

module _ {W : Type 0} (json : Json) (config : ServerConfig) (services : Services W) where
  -- The frame with the largest sequence: if it is valid, so is one with any other.
  abbrev pub probe : Text → Text → EventPayload → ℤ → Envelope
  probe session_id event_id payload timestamp = record {
    v = wire_version_v2;
    type = event;
    id = event_id;
    session_id = session_id;
    seq = 2 ^ 64 - 1;
    timestamp = timestamp;
    payload = json.encode_event payload;
  }

  abbrev pub check_publication : Text → Text → Text → Result (Unit {0})
  check_publication session_id event_id content =
      let l = config.limits in
      if is_empty session_id
        || is_empty event_id
        || not (json.valid content)
        || not (valid_string event_id)
      then err (new_protocol_error bad_request (lit "invalid event publication"))
      else refuse_if
          (ltb_ℤ l.max_id_length (pos (length event_id))
            || ltb_ℤ l.max_session_id_length (pos (length session_id))
            || ltb_ℤ l.max_payload_size (pos (length content)))
          (new_protocol_error bad_request (lit "event publication exceeds protocol limits"))

  abbrev pub send_event : Text → Text → EventPayload → Envelope → M W (Unit {0})
  send_event session_id event_id wanted frame = do
    of_result (
        wrap (lit "kmtproto: EventAppender returned invalid EVENT: ")
          (validate_outbound_frame json frame config.limits config.strict))
    payload ← of_result (
        wrap (lit "kmtproto: EventAppender returned invalid EVENT payload: ")
          (decode_payload json json.decode_event config.strict frame.payload))
    of_result (
        refuse_if
          (not (is_event frame.type)
            || not (text_eq frame.session_id session_id)
            || not (text_eq frame.id event_id)
            || not (text_eq payload.event_type wanted.event_type)
            || not (text_eq payload.content wanted.content))
          (plain (
            lit
              "kmtproto: EventAppender returned an EVENT that does not match the append request")))
    enqueue_frame json config services frame

  abbrev pub append_event : Text → Text → EventPayload → ℤ → Option SessionState → M W (Unit {0})
  append_event session_id event_id payload timestamp none =
      throw (new_protocol_error invalid_session (lit "session is not resumable"))
  append_event session_id event_id payload timestamp (some session) = do
    frame ←
        lane_callback session_id
          (services.append session_id event_id payload.event_type payload.content timestamp)
    send_event session_id event_id payload frame

  unfoldable pub publish_event : Text → Text → EventPayload → M W (Unit {0})
  unfolding run_stream
  publish_event session_id event_id payload = do
    of_result (check_publication session_id event_id payload.content)
    now ← read_clock services.now
    of_result (
        validate_outbound_frame json (probe session_id event_id payload (unix_milli now))
          config.limits config.strict)
    run_stream session_id (
        lane_callback session_id (services.lookup_session session_id now)
        >>= append_event session_id event_id payload (unix_milli now))
