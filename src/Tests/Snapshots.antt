-- ===== src/Tests/Snapshots.antt =====
-- A Session, a frame and a State snapshot that are built and read back.
use kmtproto.Validate.{
  validate_outbound_frame, validate_envelope, valid_bounded_string, validate_event, session,
  valid_content,
}
use kmtproto.Prelude.{
  pos, ◌≤ℤ◌, ltb, ◌≡◌, refl, true, Text, [], ◌∷◌, length, some, none, if◌then◌else◌, valid_string,
  has_control, ◌-ℤ◌, ◌+ℤ◌, text_eq,
}
use kmtproto.Wire.{
  Json, gives, StateObject, default_limits, ok, err, store, session_exists, validate_limits,
  normalize_limits, decode_payload, reject_duplicate_fields,
}
use kmtproto.Capability.{no_capabilities}
use kmtproto.State.{
  StateSnapshotLimits, SnapshotAccumulator, new_accumulator, add_objects, snapshot_payload,
  validate_state_object,
}
use kmtproto.State.Accounting.{snapshot_payload-fits}
use kmtproto.Store.{SessionState, MemorySessionRepository, create_session, lookup_session}
use kmtproto.Store.Openings.{create_session-lookup}
use kmtproto.Codec.{JsonCodec, encode, decode}
use kmtproto.Codec.RoundTrip.{decode-encode}
use kmtproto.Tests.Toy.{toy, event_frame, one_text, session_text}

abbrev codec : JsonCodec
codec = record { limits = default_limits; strict = true }

encodes : encode toy codec (event_frame 1 one_text) ≡ ok one_text
unfolding encode validate_outbound_frame validate_envelope validate_limits normalize_limits
    valid_bounded_string valid_string has_control validate_event session decode_payload
    valid_content
encodes = refl

decode-encode_example : decode toy codec one_text ≡ ok (event_frame 1 one_text)
unfolding reject_duplicate_fields
decode-encode_example =
    decode-encode toy codec (event_frame 1 one_text) one_text encodes
      (record { holds = refl; distinct = refl; reads = refl })

abbrev opened : SessionState
opened = record { session_id = session_text; expires_at = 9; capabilities = no_capabilities }

abbrev no_sessions : MemorySessionRepository
no_sessions = record { sessions = [] }

creates : (create_session no_sessions opened).1 ≡ ok tt
unfolding create_session
creates = refl

create_session-lookup_example :
    let after = (create_session no_sessions opened).0 in
    (lookup_session after session_text 5 ≡ (if ltb 5 9 then some opened else none))
    × (create_session after opened ≡ (after, err (store session_exists)))
    × (lookup_session after one_text 5 ≡ lookup_session no_sessions one_text 5)
unfolding text_eq
create_session-lookup_example =
    create_session-lookup no_sessions opened opened one_text 5 creates refl refl refl

-- `{"states":[1]}`
abbrev pub payload : Text
payload = 123 ∷ 34 ∷ 115 ∷ 116 ∷ 97 ∷ 116 ∷ 101 ∷ 115 ∷ 34 ∷ 58 ∷ 91 ∷ 49 ∷ 93 ∷ 125 ∷ []

abbrev snapshot_toy : Json
snapshot_toy = record toy { encode_snapshot = λ o. gives payload }

abbrev pub thing : StateObject
thing = record {
  namespace = 0x61 ∷ 0x2e ∷ 0x62 ∷ [];
  object_id = one_text;
  version = 1;
  content = one_text;
}

abbrev bounds : StateSnapshotLimits
bounds = record { max_objects = pos 4; max_bytes = pos 20 }

abbrev started : SnapshotAccumulator
started = record {
  protocol_limits = default_limits;
  snapshot_limits = bounds;
  states = [];
  encoded_bytes = pos 13;
}

starts : new_accumulator default_limits bounds ≡ ok started
unfolding new_accumulator default_limits normalize_limits
starts = refl

adds :
    add_objects snapshot_toy started (thing ∷ [])
    ≡ ok (record started { states = thing ∷ []; encoded_bytes = pos 14 })
unfolding add_objects default_limits validate_state_object normalize_limits valid_string has_control
    ◌-ℤ◌ ◌+ℤ◌
adds = refl

snapshot_payload-fits_example :
    (snapshot_payload snapshot_toy (record started { states = thing ∷ []; encoded_bytes = pos 14 })
      ≡ ok payload)
    × (pos 14 ≡ pos (length payload))
    × (pos (length payload) ≤ℤ pos 20)
    × (pos (length (thing ∷ [])) ≤ℤ pos 4)
snapshot_payload-fits_example =
    snapshot_payload-fits snapshot_toy default_limits bounds started
      (record started { states = thing ∷ []; encoded_bytes = pos 14 }) (thing ∷ []) payload starts
      adds refl refl
