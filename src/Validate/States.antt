-- ===== src/Validate/States.antt =====
-- validate.go: the cases of ValidateFrame for messages, State frames and ERROR.
use kmtproto.Prelude.{
  pos, Bool, true, false, not, ◌&&◌, ◌||◌, xor, Text, List, [], ◌∷◌, length, is_empty, nat_beq,
  ltb_ℤ, lit, contains, text_instance,
}
use kmtproto.Wire.{
  Envelope, Limits, Json, StateObject, StateIdentity, identity_instance, ErrorPayload, ErrorCode,
  other_code, behavior_for_error_code, decode_payload, json_field_present,
  json_field_present_and_non_null, Result, ok, refuse_if, ◌>>=◌, ◌>>◌,
}
use kmtproto.State.{identity, validate_state_identity, validate_state_object}
use kmtproto.Validate.Strings.{valid_bounded_string}
use kmtproto.Validate.Envelopes.{
  bad, valid_content, zero_seq, session, no_envelope_id, require_envelope_id,
}

abbrev is_empty_code : ErrorCode → Bool
is_empty_code (other_code t) = is_empty t
is_empty_code _ = false

unfoldable pub check_object_ids : Text → List Text → Limits → List Text → Result (Unit {0})
check_object_ids namespace [] l seen = ok tt
check_object_ids namespace (object_id ∷ rest) l seen =
    let more = check_object_ids namespace rest l (object_id ∷ seen) in
    do
      validate_state_identity namespace object_id l
      refuse_if (contains object_id seen) (bad (lit "STATE_QUERY contains duplicate object_id"))
      more

module _ (json : Json) where
  unfoldable pub check_states : List StateObject → Limits → List StateIdentity → Result (Unit {0})
  check_states [] l seen = ok tt
  check_states (object ∷ rest) l seen =
      let more = check_states rest l (identity object ∷ seen) in
      do
        validate_state_object json object l
        refuse_if (contains (identity object) seen)
            (bad (lit "STATE_SNAPSHOT contains duplicate object identity"))
        more

-- The checks on a decoded ERROR; the flag says whether the object has the key "retryable".
unfoldable pub check_error : ErrorPayload → Bool → Limits → Result (Unit {0})
check_error p has_retryable l =
    let (behavior, known) = behavior_for_error_code p.code in
    do
      refuse_if (is_empty_code p.code || ltb_ℤ l.max_error_message_length (pos (length p.message)))
          (bad (lit "ERROR requires code and bounded message"))
      refuse_if (not has_retryable) (bad (lit "ERROR requires explicit retryable"))
      refuse_if (not known) (bad (lit "unknown ERROR code"))
      refuse_if (behavior.retryability_fixed && xor p.retryable behavior.retryable)
          (bad (lit "ERROR retryable flag conflicts with code"))
      refuse_if (not (valid_bounded_string p.ref_id l.max_id_length true))
          (bad (lit "ERROR carries an invalid ref_id"))

module _ (json : Json) (e : Envelope) (l : Limits) (strict : Bool) where
  unfoldable pub validate_send : Result (Unit {0})
  validate_send = do
    session e
    zero_seq e
    refuse_if (is_empty e.id) (bad (lit "SEND requires id"))
    content ← decode_payload json json.decode_send strict e.payload
    valid_content json content

  unfoldable pub validate_ack : Result (Unit {0})
  validate_ack = do
    session e
    zero_seq e
    no_envelope_id e
    ref_id ← decode_payload json json.decode_ack strict e.payload
    refuse_if (not (valid_bounded_string ref_id l.max_id_length false))
        (bad (lit "ACK requires a valid ref_id"))

  unfoldable pub validate_event : Result (Unit {0})
  validate_event = do
    session e
    refuse_if (is_empty e.id || nat_beq e.seq 0)
        (bad (lit "EVENT requires id and positive sequence"))
    p ← decode_payload json json.decode_event strict e.payload
    refuse_if (not (valid_bounded_string p.event_type l.max_event_type_length true))
        (bad (lit "EVENT carries an invalid or oversized event_type"))
    valid_content json p.content

  unfoldable pub validate_state_query : Result (Unit {0})
  unfolding check_object_ids
  validate_state_query = do
    session e
    zero_seq e
    require_envelope_id e
    p ← decode_payload json json.decode_query strict e.payload
    refuse_if (is_empty p.object_ids || ltb_ℤ l.max_state_query_objects (pos (length p.object_ids)))
        (bad (lit "STATE_QUERY requires a bounded non-empty object_ids list"))
    check_object_ids p.namespace p.object_ids l []

  unfoldable pub validate_state_snapshot : Result (Unit {0})
  unfolding check_states
  validate_state_snapshot = do
    session e
    zero_seq e
    require_envelope_id e
    refuse_if (ltb_ℤ l.max_state_snapshot_bytes (pos (length e.payload)))
        (bad (lit "STATE_SNAPSHOT exceeds byte limit"))
    has_states ← json_field_present_and_non_null json e.payload (lit "states")
    refuse_if (not has_states) (bad (lit "STATE_SNAPSHOT requires states"))
    states ← decode_payload json json.decode_snapshot strict e.payload
    refuse_if (ltb_ℤ l.max_state_snapshot_objects (pos (length states)))
        (bad (lit "STATE_SNAPSHOT exceeds object limit"))
    check_states json states l []

  unfoldable pub validate_state_update : Result (Unit {0})
  validate_state_update = do
    session e
    zero_seq e
    require_envelope_id e
    object ← decode_payload json json.decode_update strict e.payload
    validate_state_object json object l

  unfoldable pub validate_error : Result (Unit {0})
  unfolding check_error
  validate_error = do
    zero_seq e
    no_envelope_id e
    p ← decode_payload json json.decode_error strict e.payload
    has_retryable ← json_field_present json e.payload (lit "retryable")
    check_error p has_retryable l
