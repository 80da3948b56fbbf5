-- ===== src/State/Apply.antt =====
-- state.go: ApplyStateObject, the monotonic merge.
use kmtproto.Prelude.{true, false, not, [], Option, none, some, ltb, if◌then◌else◌}
use kmtproto.Wire.{
  StateObject, identity_eq, Limits, Json, ok, err, Err, state, state_stale, state_conflict,
  state_identity_mismatch,
}
use kmtproto.State.Identity.{identity, validate_state_object}
use kmtproto.State.Compare.{equal_state_data}

-- The Go result 0 of a call that fails before the comparison is `unset`.
pub data StateApplyResult : Type 0 where
  unset applied duplicate stale conflict : StateApplyResult

-- The three results of the call; `error` is nil when it is none.
pub record ApplyOutcome : Type 0 where
  pub committed : StateObject
  pub result : StateApplyResult
  pub error : Option Err

abbrev pub zero_object : StateObject
zero_object = record { namespace = []; object_id = []; version = 0; content = [] }

abbrev rejected : Err → ApplyOutcome
rejected e = record { committed = zero_object; result = unset; error = some e }

module _ (json : Json) where
  -- Two valid objects of one version.
  unfoldable pub compare_data : StateObject → StateObject → ApplyOutcome
  compare_data current incoming = elim (equal_state_data json current.content incoming.content) [
    | err e ↦ record { committed = current; result = conflict; error = some e }
    | ok true ↦ record { committed = current; result = duplicate; error = none }
    | ok false ↦ record {
      committed = current;
      result = conflict;
      error = some (state state_conflict);
    }
  ]

  -- Two valid objects.
  unfoldable pub merge : StateObject → StateObject → ApplyOutcome
  unfolding compare_data
  merge current incoming =
      if not (identity_eq (identity current) (identity incoming))
      then record {
        committed = current;
        result = conflict;
        error = some (state state_identity_mismatch);
      }
      else if ltb current.version incoming.version
      then record { committed = incoming; result = applied; error = none }
      else if ltb incoming.version current.version
      then record { committed = current; result = stale; error = some (state state_stale) }
      else compare_data current incoming

  unfoldable pub apply_state_object : Option StateObject → StateObject → Limits → ApplyOutcome
  unfolding merge
  apply_state_object current incoming limits = elim (validate_state_object json incoming limits) [
    | err e ↦ rejected e
    | ok _ ↦ elim current [
      | none ↦ record { committed = incoming; result = applied; error = none }
      | some retained ↦ elim (validate_state_object json retained limits) [
        | err e ↦ rejected e
        | ok _ ↦ merge retained incoming
      ]
    ]
  ]
