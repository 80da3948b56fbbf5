-- ===== src/State/Snapshot.antt =====
-- state.go: the accumulator that bounds a State snapshot while it is built; StateSnapshotLimits of store.go.
use kmtproto.Prelude.{
  ℤ, pos, ◌+ℤ◌, ◌-ℤ◌, ltb_ℤ, leb_ℤ, ◌||◌, Text, List, [], ◌∷◌, ◌++◌, length, is_empty, lit,
  if◌then◌else◌,
}
use kmtproto.Wire.{
  StateObject, Limits, normalize_limits, Json, fails, gives, Result, ok, err, store, bad_request,
  new_protocol_error, state_snapshot_limit_exceeded, refuse_if, ◌>>=◌, ◌>>◌,
}
use kmtproto.State.Identity.{validate_state_object}

pub record StateSnapshotLimits : Type 0 where
  pub max_objects : ℤ
  pub max_bytes : ℤ

pub record SnapshotAccumulator : Type 0 where
  pub protocol_limits : Limits
  pub snapshot_limits : StateSnapshotLimits
  pub states : List StateObject
  pub encoded_bytes : ℤ

abbrev pub min_int : ℤ → ℤ → ℤ
min_int left right = if ltb_ℤ left right then left else right

-- `len({"states":[]})`
abbrev pub base_bytes : ℤ
base_bytes = pos 13

unfoldable pub new_accumulator : Limits → StateSnapshotLimits → Result SnapshotAccumulator
new_accumulator limits bounds = do
  refuse_if (leb_ℤ bounds.max_objects (pos 0) || leb_ℤ bounds.max_bytes (pos 0))
      (store state_snapshot_limit_exceeded)
  refuse_if (ltb_ℤ bounds.max_bytes base_bytes) (store state_snapshot_limit_exceeded)
  ok (record {
    protocol_limits = normalize_limits limits;
    snapshot_limits = bounds;
    states = [];
    encoded_bytes = base_bytes;
  })

-- A comma stands before every object but the first.
abbrev pub additional_bytes : List StateObject → Text → ℤ
additional_bytes states encoded = pos (length encoded) +ℤ (if is_empty states then pos 0 else pos 1)

module _ (json : Json) where
  unfoldable pub add_object : SnapshotAccumulator → StateObject → Result SnapshotAccumulator
  add_object a object = do
    refuse_if (leb_ℤ a.snapshot_limits.max_objects (pos (length a.states)))
        (store state_snapshot_limit_exceeded)
    validate_state_object json object a.protocol_limits
    elim (json.encode_object object) [
      | fails message ↦
          err (new_protocol_error bad_request (lit "state object cannot be encoded: " ++ message))
      | gives encoded ↦
          let additional = additional_bytes a.states encoded in
          if ltb_ℤ (a.snapshot_limits.max_bytes -ℤ a.encoded_bytes) additional
          then err (store state_snapshot_limit_exceeded)
          else ok (record a {
            encoded_bytes = a.encoded_bytes +ℤ additional;
            states = a.states ++ object ∷ [];
          })
    ]

  unfoldable pub snapshot_payload : SnapshotAccumulator → Result Text
  snapshot_payload a = elim (json.encode_snapshot a.states) [
    | fails message ↦
        err (new_protocol_error bad_request (lit "State snapshot cannot be encoded: " ++ message))
    | gives payload ↦
        if ltb_ℤ a.snapshot_limits.max_bytes (pos (length payload))
        then err (store state_snapshot_limit_exceeded)
        else ok payload
  ]

  -- The loop over the objects of a snapshot.
  unfoldable pub add_objects : SnapshotAccumulator → List StateObject → Result SnapshotAccumulator
  unfolding add_object
  add_objects a [] = ok a
  add_objects a (object ∷ rest) = (do a' ← add_object a object; add_objects a' rest)
