-- ===== src/Validate/Envelopes.antt =====
-- validate.go: ValidateEnvelope, and the checks on envelope fields that frames share.
use kmtproto.Prelude.{
  ℕ, pos, Bool, true, false, not, ◌||◌, Text, ◌++◌, length, is_empty, ltb_ℤ, nat_beq, lit, decimal,
}
use kmtproto.Wire.{
  Envelope, FrameType, unknown, frame_type_text, wire_version_v2, Limits, normalize_limits,
  validate_limits, Json, fails, gives, Result, ok, err, Err, protocol, bad_request,
  unsupported_version, protocol_error, new_protocol_error, error_text, refuse_if, ◌>>◌, is_null,
}
use kmtproto.Validate.Strings.{valid_bounded_string}

-- `bad t` is `NewProtocolError(ErrorBadRequest, t)`.
abbrev pub bad : Text → Err
bad message = new_protocol_error bad_request message

abbrev is_missing_type : FrameType → Bool
is_missing_type (unknown t) = is_empty t
is_missing_type _ = false

unfoldable pub version_error : ℕ → Err
version_error v =
    protocol
      (record (protocol_error unsupported_version (lit "unsupported wire version " ++ decimal v)) {
        close = true;
      })

module _ (json : Json) where
  unfoldable pub validate_envelope : Envelope → Limits → Result (Unit {0})
  unfolding version_error
  validate_envelope e limits =
      let l = normalize_limits limits in
      do
        elim (validate_limits l) [
          | ok _ ↦ ok tt
          | err x ↦ err (bad (lit "invalid protocol limits: " ++ error_text x))
        ]
        refuse_if (not (nat_beq e.v wire_version_v2)) (version_error e.v)
        refuse_if (is_missing_type e.type) (bad (lit "missing frame type"))
        refuse_if (not (valid_bounded_string e.id l.max_id_length true))
            (bad (lit "invalid or oversized frame id"))
        refuse_if (not (valid_bounded_string e.session_id l.max_session_id_length true))
            (bad (lit "invalid or oversized session id"))
        refuse_if (ltb_ℤ l.max_payload_size (pos (length e.payload)))
            (bad (lit "payload exceeds maximum size"))
        elim (json.encode_envelope e) [
          | fails message ↦ err (bad (lit "frame cannot be encoded: " ++ message))
          | gives encoded ↦
              refuse_if (ltb_ℤ l.max_frame_size (pos (length encoded)))
                (bad (lit "frame exceeds maximum size"))
        ]

  -- The closure `validContent`.
  unfoldable pub valid_content : Text → Result (Unit {0})
  valid_content raw =
      refuse_if (is_empty raw || is_null raw || not (json.valid raw))
        (bad (lit "content must contain one valid JSON value"))

-- The closures `zeroSeq`, `session`, `noEnvelopeID` and `requireEnvelopeID`.
unfoldable pub zero_seq : Envelope → Result (Unit {0})
zero_seq e =
    refuse_if (not (nat_beq e.seq 0))
      (bad (frame_type_text e.type ++ lit " must not carry sequence"))

unfoldable pub session : Envelope → Result (Unit {0})
session e =
    refuse_if (is_empty e.session_id) (bad (frame_type_text e.type ++ lit " requires session_id"))

unfoldable pub no_envelope_id : Envelope → Result (Unit {0})
no_envelope_id e =
    refuse_if (not (is_empty e.id))
      (bad (frame_type_text e.type ++ lit " must not carry envelope id"))

unfoldable pub require_envelope_id : Envelope → Result (Unit {0})
require_envelope_id e =
    refuse_if (is_empty e.id) (bad (frame_type_text e.type ++ lit " requires id"))
