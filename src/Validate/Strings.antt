-- ===== src/Validate/Strings.antt =====
-- validate.go: validBoundedProtocolString, validateResumeStateSync, knownErrorCode.
use kmtproto.Prelude.{
  ℤ, pos, Bool, false, not, ◌&&◌, ◌||◌, Text, List, [], ◌∷◌, Option, none, some, length, is_empty,
  ltb_ℤ, lit, text_lt, valid_string, has_control, if◌then◌else◌,
}
use kmtproto.Wire.{
  Limits, normalize_limits, Result, ok, err, bad_request, new_protocol_error, refuse_if, ◌>>◌,
  ErrorCode, behavior_for_error_code,
}
use kmtproto.State.{validate_state_namespace}

unfoldable pub valid_bounded_string : Text → ℤ → Bool → Bool
valid_bounded_string value max_length allow_empty =
    if (not allow_empty && is_empty value)
      || ltb_ℤ max_length (pos (length value))
      || not (valid_string value)
    then false
    else not (has_control value)

-- The loop, with the previous namespace if there is one.
unfoldable pub check_namespaces : List Text → Limits → Option Text → Result (Unit {0})
check_namespaces [] limits previous = ok tt
check_namespaces (namespace ∷ rest) limits previous =
    let more = check_namespaces rest limits (some namespace) in
    do
      validate_state_namespace namespace limits.max_state_namespace_length
      refuse_if (elim previous [ none ↦ false | some p ↦ not (text_lt p namespace) ])
          (new_protocol_error bad_request
            (lit "state_sync namespaces must be unique and canonically ordered"))
      more

unfoldable pub validate_resume_state_sync : Option (List Text) → Limits → Result (Unit {0})
unfolding check_namespaces
validate_resume_state_sync sync limits =
    let l = normalize_limits limits in
    let missing =
      new_protocol_error bad_request
        (lit "state_sync requires a bounded non-empty namespace list") in
    elim sync [
      | none ↦ err missing
      | some namespaces ↦ (do
        refuse_if
            (is_empty namespaces || ltb_ℤ l.max_state_sync_namespaces (pos (length namespaces)))
            missing
        check_namespaces namespaces l none)
    ]

unfoldable pub known_error_code : ErrorCode → Bool
known_error_code code = (behavior_for_error_code code).1
