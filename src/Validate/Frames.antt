-- ===== src/Validate/Frames.antt =====
-- validate.go: ValidateFrame and validateOutboundFrame. The limits are normalised once more by each
-- caller in the source, which changes nothing.
use kmtproto.Prelude.{Bool, lit}
use kmtproto.Wire.{
  Envelope, FrameType, hello, welcome, ping, pong, send, ack, event, resume, error, state_query,
  state_snapshot, state_update, unknown, Limits, normalize_limits, Json, Result, err, ◌>>◌,
}
use kmtproto.Validate.Envelopes.{bad, validate_envelope}
use kmtproto.Validate.Sessions.{
  validate_hello, validate_welcome, validate_ping, validate_pong, validate_resume,
}
use kmtproto.Validate.States.{
  validate_send, validate_ack, validate_event, validate_state_query, validate_state_snapshot,
  validate_state_update, validate_error,
}

module _ (json : Json) where
  unfoldable pub validate_by_type : FrameType → Envelope → Limits → Bool → Result (Unit {0})
  validate_by_type hello e l strict = validate_hello json e l strict
  validate_by_type welcome e l strict = validate_welcome json e l strict
  validate_by_type ping e l strict = validate_ping json e l strict
  validate_by_type pong e l strict = validate_pong json e l strict
  validate_by_type send e l strict = validate_send json e l strict
  validate_by_type ack e l strict = validate_ack json e l strict
  validate_by_type event e l strict = validate_event json e l strict
  validate_by_type resume e l strict = validate_resume json e l strict
  validate_by_type state_query e l strict = validate_state_query json e l strict
  validate_by_type state_snapshot e l strict = validate_state_snapshot json e l strict
  validate_by_type state_update e l strict = validate_state_update json e l strict
  validate_by_type error e l strict = validate_error json e l strict
  validate_by_type (unknown t) e l strict = err (bad (lit "unknown frame type"))

  unfoldable pub validate_frame : Envelope → Limits → Bool → Result (Unit {0})
  unfolding validate_by_type
  validate_frame e limits strict =
      let l = normalize_limits limits in
      do validate_envelope json e l; validate_by_type e.type e l strict

  unfoldable pub validate_outbound_frame : Envelope → Limits → Bool → Result (Unit {0})
  unfolding validate_frame
  validate_outbound_frame e limits strict = validate_frame e (normalize_limits limits) strict
