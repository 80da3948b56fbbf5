-- ===== src/Capability/Highest.antt =====
-- Version selection: the highest version that both sides list.
use mathlib.Core.List.{reverse, reverse-cons}
use kmtproto.Prelude.{
  subst, Bool-cases, nat_beq, ltb, inl, inr, ℕ, ◌<◌, ◌≤◌, ◌≡◌, refl, true, false, List, [], ◌∷◌,
  ◌++◌, Option, none, some, All, All-append, contains, nat_eq, arith, ◌||◌,
}
use kmtproto.Capability.{highest_from_end, highest_common_version}

-- Strictly ascending and descending lists.
abbrev pub IsAscending : List ℕ → Type 0
IsAscending [] = Unit
IsAscending (v ∷ vs) = All (λ w. v < w) vs × IsAscending vs

abbrev IsDescending : List ℕ → Type 0
IsDescending [] = Unit
IsDescending (v ∷ vs) = All (λ w. w < v) vs × IsDescending vs

-- What the selection owes for two lists of versions.
abbrev pub IsHighestCommon : List ℕ → List ℕ → Option ℕ → Type 0
IsHighestCommon client server none = (w : ℕ) → contains w client ≡ true → contains w server ≡ false
IsHighestCommon client server (some v) =
    (contains v client ≡ true)
    × (contains v server ≡ true)
    × ((w : ℕ) → contains w client ≡ true → contains w server ≡ true → w ≤ v)

All-contains : (v w : ℕ) (vs : List ℕ) → All (λ x. x < v) vs → contains w vs ≡ true → w < v
unfolding contains
All-contains v w [] h e = ground (arith, e)
All-contains v w (x ∷ vs) h e = ground (arith, e, h, All-contains v w vs h.1)

-- Versions that only one side lists may be left out.
pub IsHighestCommon-widen :
    (client server wide_client wide_server : List ℕ) (r : Option ℕ)
    → ((w : ℕ) → contains w client ≡ true → contains w wide_client ≡ true)
    → ((w : ℕ) → contains w server ≡ true → contains w wide_server ≡ true)
    → ((w : ℕ)
        → contains w wide_client ≡ true
        → contains w wide_server ≡ true
        → (contains w client ≡ true) × (contains w server ≡ true))
    → IsHighestCommon client server r
    → IsHighestCommon wide_client wide_server r
IsHighestCommon-widen client server wc ws none fc fs common h = λ w e.
    elim (Bool-cases (contains w ws)) [
      | inr absent ↦ absent
      | inl present ↦ ground (arith, present, common w e present, h w (common w e present).0)
    ]
IsHighestCommon-widen client server wc ws (some v) fc fs common (hc, hs, top) =
    (fc v hc, fs v hs, λ w e f. top w (common w e f).0 (common w e f).1)

module _ (c s : ℕ) (client server : List ℕ) (hc : IsDescending (c ∷ client))
    (hs : IsDescending (s ∷ server)) where
  in_client : (w : ℕ) → contains w (c ∷ client) ≡ true → w ≤ c
  unfolding contains
  in_client w e = ground (arith, e, All-contains c w client hc.0)

  in_server : (w : ℕ) → contains w (s ∷ server) ≡ true → w ≤ s
  unfolding contains
  in_server w e = ground (arith, e, All-contains s w server hs.0)

  both-top : c ≡ s → IsHighestCommon (c ∷ client) (s ∷ server) (some c)
  unfolding contains
  both-top e = (ground arith, ground (arith, e), λ w f g. in_client w f)

  skip_client :
      s < c
      → (r : Option ℕ) → IsHighestCommon client (s ∷ server) r
      → IsHighestCommon (c ∷ client) (s ∷ server) r
  unfolding contains
  skip_client above r h =
      IsHighestCommon-widen client (s ∷ server) (c ∷ client) (s ∷ server) r
        (λ w e. ground (arith, e)) (λ w e. e)
        (λ w e f. (ground (arith, e, f, above, in_server w f), f)) h

  skip_server :
      c < s
      → (r : Option ℕ) → IsHighestCommon (c ∷ client) server r
      → IsHighestCommon (c ∷ client) (s ∷ server) r
  unfolding contains
  skip_server above r h =
      IsHighestCommon-widen (c ∷ client) server (c ∷ client) (s ∷ server) r (λ w e. e)
        (λ w e. ground (arith, e)) (λ w e f. (e, ground (arith, e, f, above, in_client w e))) h

highest_from_end-greatest :
    (client server : List ℕ)
    → IsDescending client
    → IsDescending server
    → IsHighestCommon client server (highest_from_end client server)
unfolding highest_from_end contains
highest_from_end-greatest [] server hc hs = λ w e. ground (arith, e)
highest_from_end-greatest (c ∷ client) [] hc hs = λ w e. refl
highest_from_end-greatest (c ∷ client) (s ∷ server) hc hs =
    let client_rest = highest_from_end-greatest client (s ∷ server) hc.1 hs in
    let server_rest = highest_from_end-greatest (c ∷ client) server hc hs.1 in
    let P = IsHighestCommon (c ∷ client) (s ∷ server) in
    let here = highest_from_end (c ∷ client) (s ∷ server) in
    elim (Bool-cases (nat_beq c s)) [
      | inl e ↦
          let q : some c ≡ here = ground (arith, e) in
          subst P q (both-top c s client server hc hs (ground (arith, e)))
      | inr e ↦ elim (Bool-cases (ltb s c)) [
        | inl f ↦
            let q : highest_from_end client (s ∷ server) ≡ here = ground (arith, e, f) in
            subst P q (
              skip_client c s client server hc hs (ground (arith, f))
                (highest_from_end client (s ∷ server)) client_rest)
        | inr f ↦
            let q : highest_from_end (c ∷ client) server ≡ here = ground (arith, e, f) in
            subst P q (
              skip_server c s client server hc hs (ground (arith, e, f))
                (highest_from_end (c ∷ client) server) server_rest)
      ]
    ]

All-reverse {ℓ} : (P : ℕ → Type ℓ) (vs : List ℕ) → All P vs → All P (reverse vs)
All-reverse P [] h = tt
All-reverse P (v ∷ vs) h =
    rw (reverse-cons v vs) (All-append P (reverse vs) (v ∷ []) (All-reverse P vs h.1) (h.0, tt))

Descending-append :
    (vs : List ℕ) (v : ℕ) → IsDescending vs → All (λ w. v < w) vs → IsDescending (vs ++ v ∷ [])
Descending-append [] v h a = (tt, tt)
Descending-append (x ∷ vs) v h a =
    (All-append (λ w. w < x) vs (v ∷ []) h.0 (a.0, tt), Descending-append vs v h.1 a.1)

reverse-IsDescending : (vs : List ℕ) → IsAscending vs → IsDescending (reverse vs)
reverse-IsDescending [] h = tt
reverse-IsDescending (v ∷ vs) h = rw (reverse-cons v vs) (
    Descending-append (reverse vs) v (reverse-IsDescending vs h.1)
      (All-reverse (λ w. v < w) vs h.0))

contains-append :
    (w : ℕ) (xs ys : List ℕ) → contains w (xs ++ ys) ≡ (contains w xs || contains w ys)
unfolding contains
contains-append w [] ys = refl
contains-append w (x ∷ xs) ys = ground (arith, contains-append w xs ys)

contains-reverse : (w : ℕ) (vs : List ℕ) → contains w (reverse vs) ≡ contains w vs
unfolding contains
contains-reverse w [] = refl
contains-reverse w (v ∷ vs) =
    rw (reverse-cons v vs)
      (ground (arith, contains-append w (reverse vs) (v ∷ []), contains-reverse w vs))

-- For two strictly ascending version lists, the selected version is listed by both, and no higher
-- version is; without a selection no version is listed by both.
pub highest_common_version-IsHighestCommon :
    (client server : List ℕ)
    → IsAscending client
    → IsAscending server
    → IsHighestCommon client server (highest_common_version client server)
unfolding highest_common_version
highest_common_version-IsHighestCommon client server hc hs =
    IsHighestCommon-widen (reverse client) (reverse server) client server
      (highest_common_version client server) (λ w e. ground (arith, e, contains-reverse w client))
      (λ w e. ground (arith, e, contains-reverse w server))
      (λ w e f. (
        ground (arith, e, contains-reverse w client),
        ground (arith, f, contains-reverse w server),
      ))
      (highest_from_end-greatest (reverse client) (reverse server) (reverse-IsDescending client hc)
        (reverse-IsDescending server hs))
