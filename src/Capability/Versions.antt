-- ===== src/Capability/Versions.antt =====
-- capability.go: validateAndSortCapabilityVersions, highestCommonCapabilityVersion,
-- containsCapabilityVersion. A version is a uint16.
use mathlib.Core.List.{reverse}
use kmtproto.Prelude.{
  ℕ, pos, Bool, true, false, ◌||◌, List, [], ◌∷◌, Option, none, some, length, is_empty, ltb, leb,
  ltb_ℤ, nat_beq, lit, insertion_sort, if◌then◌else◌,
}
use kmtproto.Wire.{Limits, Result, ok, err, invalid_capability, new_protocol_error, refuse_if, ◌>>◌}

-- The loop over the sorted list; the second argument is `result[i-1]`, if there is one.
unfoldable pub check_versions : List ℕ → Option ℕ → Result (Unit {0})
check_versions [] previous = ok tt
check_versions (version ∷ rest) previous =
    if nat_beq version 0
    then err (new_protocol_error invalid_capability (lit "capability version must be positive"))
    else if elim previous [ none ↦ false | some p ↦ nat_beq version p ]
    then err (new_protocol_error invalid_capability (lit "duplicate capability version"))
    else check_versions rest (some version)

-- `sort.Slice` by `<` on numbers: any sorting algorithm gives this list.
unfoldable pub validate_and_sort_versions : List ℕ → Limits → Result (List ℕ)
unfolding check_versions insertion_sort
validate_and_sort_versions versions limits = do
  refuse_if (is_empty versions || ltb_ℤ limits.max_capability_versions (pos (length versions))) (
      new_protocol_error invalid_capability
        (lit "capability requires a bounded non-empty version list"))
  let result = insertion_sort ltb versions
  check_versions result none
  ok result

-- The two indices run down, so the loop is a recursion on the two lists from their ends.
unfoldable pub highest_from_end : List ℕ → List ℕ → Option ℕ
highest_from_end [] server = none
highest_from_end (c ∷ client) [] = none
highest_from_end (c ∷ client) (s ∷ server) = elim (nat_beq c s) [
  | true ↦ some c
  | false ↦ elim (ltb s c) [
    | true ↦ highest_from_end client (s ∷ server)
    | false ↦ highest_from_end (c ∷ client) server
  ]
]

unfoldable pub highest_common_version : List ℕ → List ℕ → Option ℕ
unfolding highest_from_end
highest_common_version client server = highest_from_end (reverse client) (reverse server)

-- `sort.Search` finds the first version that is at least the target, since the list is sorted.
unfoldable pub contains_version : List ℕ → ℕ → Bool
contains_version [] target = false
contains_version (v ∷ versions) target =
    if leb target v then nat_beq v target else contains_version versions target
