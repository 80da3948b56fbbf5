-- ===== src/State/Identity.antt =====
-- state.go: validation of identities and of complete State objects.
use kmtproto.Prelude.{
  ℕ, ℤ, pos, ◌-◌, ◌^◌, Bool, false, not, ◌&&◌, ◌||◌, Text, [], ◌∷◌, ◌++◌, length, is_empty, ltb_ℤ,
  nat_beq, lit, valid_string, has_control,
}
use kmtproto.Wire.{
  StateObject, StateIdentity, Limits, normalize_limits, Json, fails, gives, Result, ok, err, Err,
  bad_request, invalid_state_version, new_protocol_error, refuse_if, ◌>>◌,
}
use kmtproto.Capability.{scan_name, is_lower}

abbrev pub max_uint64 : ℕ
max_uint64 = 2 ^ 64 - 1

abbrev pub identity : StateObject → StateIdentity
identity o = record { namespace = o.namespace; object_id = o.object_id }

bad_namespace : Text → Err
bad_namespace namespace =
    new_protocol_error bad_request (lit "invalid state namespace: " ++ namespace)

-- The first byte, then the loop over the others, which is that of capability names.
shape_ok : Text → Bool
unfolding scan_name is_lower
shape_ok [] = false
shape_ok (ch ∷ rest) = is_lower ch && scan_name false rest

unfoldable pub validate_state_namespace : Text → ℤ → Result (Unit {0})
unfolding shape_ok bad_namespace
validate_state_namespace namespace max_length = do
  refuse_if
      (is_empty namespace
        || ltb_ℤ max_length (pos (length namespace))
        || not (valid_string namespace))
      (new_protocol_error bad_request (lit "invalid or oversized state namespace"))
  refuse_if (not (shape_ok namespace)) (bad_namespace namespace)

unfoldable pub validate_state_identity : Text → Text → Limits → Result (Unit {0})
unfolding validate_state_namespace
validate_state_identity namespace object_id limits =
    let l = normalize_limits limits in
    do
      validate_state_namespace namespace l.max_state_namespace_length
      refuse_if
          (is_empty object_id
            || ltb_ℤ l.max_state_object_id_length (pos (length object_id))
            || not (valid_string object_id))
          (new_protocol_error bad_request (lit "invalid or oversized state object_id"))
      refuse_if (has_control object_id) (
          new_protocol_error bad_request
            (lit "state object_id must not contain control characters"))

module _ (json : Json) where
  unfoldable pub validate_state_object : StateObject → Limits → Result (Unit {0})
  unfolding validate_state_identity
  validate_state_object object limits =
      let l = normalize_limits limits in
      do
        validate_state_identity object.namespace object.object_id l
        refuse_if (nat_beq object.version 0 || nat_beq object.version max_uint64) (
            new_protocol_error invalid_state_version
              (lit "state version must be positive and non-exhausted"))
        refuse_if (is_empty object.content || not (json.valid object.content))
            (new_protocol_error bad_request (lit "state data must contain one valid JSON value"))
        refuse_if (ltb_ℤ l.max_state_data_size (pos (length object.content)))
            (new_protocol_error bad_request (lit "state data exceeds maximum size"))
        elim (json.encode_object object) [
          | fails message ↦
              err
                (new_protocol_error bad_request (lit "state object cannot be encoded: " ++ message))
          | gives encoded ↦
              refuse_if
                (ltb_ℤ l.max_state_object_size (pos (length encoded))
                  || ltb_ℤ l.max_payload_size (pos (length encoded)))
                (new_protocol_error bad_request (lit "state object exceeds maximum size"))
        ]

  -- NewStateObject
  unfoldable pub new_state_object : Text → Text → ℕ → Text → Limits → Result StateObject
  unfolding validate_state_object
  new_state_object namespace object_id version content limits =
      let object : StateObject = record {
        namespace = namespace;
        object_id = object_id;
        version = version;
        content = content;
      } in
      do validate_state_object object limits; ok object
