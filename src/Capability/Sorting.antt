-- ===== src/Capability/Sorting.antt =====
-- validateAndSortCapabilityVersions: what an accepted version list looks like.
use kmtproto.Prelude.{
  Bool-cases, ℕ, ◌≤◌, ◌<◌, ◌≡◌, ◌||◌, List, [], ◌∷◌, none, some, All, contains, nat_eq, nat_beq,
  ltb, insertion_sort, sort_into, insert_sorted, inl, inr, arith, subst,
}
use kmtproto.Wire.{Limits, ok}
use kmtproto.Capability.{check_versions, validate_and_sort_versions}
use kmtproto.Capability.Highest.{IsAscending}

abbrev IsSorted : List ℕ → Type 0
IsSorted [] = Unit
IsSorted (v ∷ vs) = All (λ w. v ≤ w) vs × IsSorted vs

All-weaken : (p v : ℕ) (vs : List ℕ) → p ≤ v → All (λ w. v ≤ w) vs → All (λ w. p ≤ w) vs
All-weaken p v [] h a = tt
All-weaken p v (w ∷ vs) h a = (omega (arith, h, a.0), All-weaken p v vs h a.1)

All-strict : (p v : ℕ) (vs : List ℕ) → p < v → All (λ w. v ≤ w) vs → All (λ w. p < w) vs
All-strict p v [] h a = tt
All-strict p v (w ∷ vs) h a = (omega (arith, h, a.0), All-strict p v vs h a.1)

All-insert :
    (p x : ℕ) (vs : List ℕ)
    → p ≤ x
    → All (λ w. p ≤ w) vs
    → All (λ w. p ≤ w) (insert_sorted ltb x vs)
unfolding insert_sorted
All-insert p x [] h a = (h, tt)
All-insert p x (v ∷ vs) h a = ground (arith, h, a, All-insert p x vs h a.1)

insert_sorted-IsSorted : (x : ℕ) (vs : List ℕ) → IsSorted vs → IsSorted (insert_sorted ltb x vs)
unfolding insert_sorted
insert_sorted-IsSorted x [] h = (tt, tt)
insert_sorted-IsSorted x (v ∷ vs) h = elim (Bool-cases (ltb x v)) [
  | inl e ↦
      let below : x ≤ v = ground (arith, e) in
      rw (e, IsSorted, insert_sorted) ((below, All-weaken x v vs below h.0), h)
  | inr e ↦
      let above : v ≤ x = ground (arith, e) in
      rw (e, IsSorted, insert_sorted) (All-insert v x vs above h.0, insert_sorted-IsSorted x vs h.1)
]

contains-insert :
    (w x : ℕ) (vs : List ℕ) → contains w (insert_sorted ltb x vs) ≡ (nat_beq x w || contains w vs)
unfolding insert_sorted contains
contains-insert w x [] = ground arith
contains-insert w x (v ∷ vs) = ground (arith, contains-insert w x vs)

sort_into-IsSorted : (sorted vs : List ℕ) → IsSorted sorted → IsSorted (sort_into ltb sorted vs)
unfolding sort_into
sort_into-IsSorted sorted [] h = h
sort_into-IsSorted sorted (v ∷ vs) h =
    sort_into-IsSorted (insert_sorted ltb v sorted) vs (insert_sorted-IsSorted v sorted h)

contains-sort_into :
    (w : ℕ) (sorted vs : List ℕ)
    → contains w (sort_into ltb sorted vs) ≡ (contains w sorted || contains w vs)
unfolding sort_into contains
contains-sort_into w sorted [] = ground arith
contains-sort_into w sorted (v ∷ vs) =
    ground (arith, contains-sort_into w (insert_sorted ltb v sorted) vs, contains-insert w v sorted)

check_versions-ascends :
    (p : ℕ) (vs : List ℕ)
    → IsSorted vs
    → All (λ w. p ≤ w) vs
    → check_versions vs (some p) ≡ ok tt
    → All (λ w. p < w) vs × IsAscending vs
unfolding check_versions
check_versions-ascends p [] h a e = (tt, tt)
check_versions-ascends p (v ∷ vs) h a e =
    let rest = check_versions-ascends v vs h.1 h.0 (ground (arith, e)) in
    let above : p < v = ground (arith, e, a) in
    ((above, All-strict p v vs above h.0), (rest.0, rest.1))

check_versions-first :
    (vs : List ℕ)
    → IsSorted vs
    → check_versions vs none ≡ ok tt
    → IsAscending vs × All (λ w. 0 < w) vs
unfolding check_versions
check_versions-first [] h e = (tt, tt)
check_versions-first (v ∷ vs) h e =
    let rest = check_versions-ascends v vs h.1 h.0 (ground (arith, e)) in
    let above : 0 < v = ground (arith, e) in (rest, (above, All-strict 0 v vs above h.0))

-- An accepted version list comes back strictly ascending, with exactly the versions that were given,
-- all of them positive.
pub validate_and_sort_versions-sorts :
    (versions : List ℕ) (limits : Limits) (result : List ℕ)
    → validate_and_sort_versions versions limits ≡ ok result
    → IsAscending result
      × ((w : ℕ) → contains w result ≡ contains w versions)
      × All (λ w. 0 < w) result
unfolding validate_and_sort_versions insertion_sort contains
validate_and_sort_versions-sorts versions limits result e =
    let sorted = sort_into ltb [] versions in
    let passed : check_versions sorted none ≡ ok tt = ground (arith, e) in
    let same : sorted ≡ result = ground (arith, e) in
    let first = check_versions-first sorted (sort_into-IsSorted [] versions tt) passed in
    subst (λ r. IsAscending r × ((w : ℕ) → contains w r ≡ contains w versions) × All (λ w. 0 < w) r)
      same (first.0, (λ w. contains-sort_into w [] versions), first.1)
