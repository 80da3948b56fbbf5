-- ===== src/State/Monotone.antt =====
-- The merge of State objects: what a sequence of versions converges to.
use kmtproto.Prelude.{◌<◌, ◌≡◌, ◌≢◌, ◌⊎◌, Option, none, some, arith, ltb, if◌then◌else◌}
use kmtproto.Wire.{StateObject, Json, Limits, ok, identity_eq_iff}
use kmtproto.State.{identity, validate_state_object, apply_state_object, duplicate, applied}

-- What is retained after an incoming object: an error leaves the retained object.
abbrev pub retained : Json → Limits → Option StateObject → StateObject → Option StateObject
retained json limits current incoming =
    let outcome = apply_state_object json current incoming limits in
    elim outcome.error [ none ↦ some outcome.committed | some e ↦ current ]

-- The later of two objects.
abbrev later : StateObject → StateObject → StateObject
later a b = if ltb a.version b.version then b else a

-- Two valid objects of one identity and different versions end in the same retained object in either
-- order of arrival: the one with the higher version.
pub retained-order_independent :
    (json : Json) (limits : Limits) (a b : StateObject)
    → validate_state_object json a limits ≡ ok tt
    → validate_state_object json b limits ≡ ok tt
    → identity a ≡ identity b
    → a.version ≢ b.version
    → (retained json limits (retained json limits none a) b ≡ some (later a b))
      × (retained json limits (retained json limits none b) a ≡ some (later a b))
unfolding apply_state_object
retained-order_independent json limits a b va vb same distinct = ground (
  arith,
  va,
  vb,
  same,
  distinct,
  identity_eq_iff (identity a) (identity b),
  identity_eq_iff (identity b) (identity a),
)

-- A call on a retained object that reports no error commits an object of the same identity whose version
-- is no lower: the retained one for a duplicate, the incoming one with a higher version otherwise.
pub apply_state_object-monotone :
    (json : Json) (limits : Limits) (current incoming : StateObject)
    → let outcome = apply_state_object json (some current) incoming limits in
      outcome.error ≡ none
      → (identity outcome.committed ≡ identity current)
        × (identity incoming ≡ identity current)
        × (((outcome.result ≡ duplicate)
              × (outcome.committed ≡ current)
              × (incoming.version ≡ current.version))
            ⊎ ((outcome.result ≡ applied)
                × (outcome.committed ≡ incoming)
                × (current.version < incoming.version)))
unfolding apply_state_object
apply_state_object-monotone json limits current incoming none_wrong =
    ground (arith, none_wrong, identity_eq_iff (identity current) (identity incoming))
