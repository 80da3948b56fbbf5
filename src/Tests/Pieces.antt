-- ===== src/Tests/Pieces.antt =====
-- State objects and version lists.
use kmtproto.Prelude.{
  ℕ, ◌<◌, ◌≡◌, ◌⊎◌, refl, [], ◌∷◌, none, some, arith, All, contains, nat_eq, valid_string,
  has_control,
}
use kmtproto.Wire.{ok, normalize_limits, default_limits, identity_eq_iff}
use kmtproto.State.{identity, validate_state_object, apply_state_object, duplicate, applied}
use kmtproto.State.Monotone.{retained, retained-order_independent, apply_state_object-monotone}
use kmtproto.Capability.{validate_and_sort_versions, highest_common_version}
use kmtproto.Capability.Highest.{IsAscending, IsHighestCommon}
use kmtproto.Capability.Sorting.{validate_and_sort_versions-sorts}
use kmtproto.Capability.Selection.{highest_common_version-of_offers}
use kmtproto.Tests.Toy.{toy}
use kmtproto.Tests.Clients.{first_object, second_object}

first_valid : validate_state_object toy first_object default_limits ≡ ok tt
unfolding validate_state_object normalize_limits valid_string default_limits has_control
first_valid = refl

second_valid : validate_state_object toy second_object default_limits ≡ ok tt
unfolding validate_state_object normalize_limits valid_string default_limits has_control
second_valid = refl

retained-order_independent_example :
    (retained toy default_limits (retained toy default_limits none first_object) second_object
      ≡ some second_object)
    × (retained toy default_limits (retained toy default_limits none second_object) first_object
        ≡ some second_object)
retained-order_independent_example =
    retained-order_independent toy default_limits first_object second_object first_valid
      second_valid refl (λ h. ground arith)

accepted : (apply_state_object toy (some first_object) second_object default_limits).error ≡ none
unfolding apply_state_object
accepted = ground (
  arith,
  first_valid,
  second_valid,
  identity_eq_iff (identity first_object) (identity second_object),
)

apply_state_object-monotone_example :
    let outcome = apply_state_object toy (some first_object) second_object default_limits in
    (identity outcome.committed ≡ identity first_object)
    × (identity second_object ≡ identity first_object)
    × (((outcome.result ≡ duplicate)
          × (outcome.committed ≡ first_object)
          × (second_object.version ≡ first_object.version))
        ⊎ ((outcome.result ≡ applied)
            × (outcome.committed ≡ second_object)
            × (first_object.version < second_object.version)))
apply_state_object-monotone_example =
    apply_state_object-monotone toy default_limits first_object second_object accepted

client_sorted : validate_and_sort_versions (3 ∷ 1 ∷ []) default_limits ≡ ok (1 ∷ 3 ∷ [])
unfolding validate_and_sort_versions default_limits
client_sorted = refl

server_sorted : validate_and_sort_versions (2 ∷ 1 ∷ []) default_limits ≡ ok (1 ∷ 2 ∷ [])
unfolding validate_and_sort_versions default_limits
server_sorted = refl

validate_and_sort_versions-sorts_example :
    IsAscending (1 ∷ 3 ∷ [])
    × ((w : ℕ) → contains w (1 ∷ 3 ∷ []) ≡ contains w (3 ∷ 1 ∷ []))
    × All (λ w. 0 < w) (1 ∷ 3 ∷ [])
validate_and_sort_versions-sorts_example =
    validate_and_sort_versions-sorts (3 ∷ 1 ∷ []) default_limits (1 ∷ 3 ∷ []) client_sorted

highest_common_version-of_offers_example :
    IsHighestCommon (3 ∷ 1 ∷ []) (2 ∷ 1 ∷ []) (highest_common_version (1 ∷ 3 ∷ []) (1 ∷ 2 ∷ []))
highest_common_version-of_offers_example =
    highest_common_version-of_offers (3 ∷ 1 ∷ []) (2 ∷ 1 ∷ []) default_limits (1 ∷ 3 ∷ [])
      (1 ∷ 2 ∷ []) client_sorted server_sorted
