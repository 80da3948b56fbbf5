-- ===== src/Server/Truncation.antt =====
-- truncateUTF8: the message of an ERROR frame fits its limit and is not cut inside a rune.
use kmtproto.Prelude.{
  ℕ, suc, zero, ℤ, pos, negsuc, pos_part, ◌≤◌, leb, Bool, Bool-cases, true, false, ◌≡◌, refl, sym,
  ap, subst, ◌∙◌, ◌⊎◌, inl, inr, Text, [], ◌∷◌, ◌++◌, length, is_empty, arith, if◌then◌else◌,
}
use kmtproto.Server.Frames.{
  rune_start, starts_at, cut_back, first_bytes, truncate_to, truncate_utf8,
}
use mathlib.Core.List.{append-nil}

-- A text that begins with a byte that can start a rune, or is empty.
abbrev pub begins_rune : Text → Bool
begins_rune [] = true
begins_rune (b ∷ rest) = rune_start b

first_bytes-split :
    (n : ℕ) (v : Text)
    → n ≤ length v
    → (rest : Text) × (v ≡ first_bytes n v ++ rest)
      × (length (first_bytes n v) ≡ n)
      × (starts_at v n ≡ begins_rune rest)
unfolding first_bytes
first_bytes-split zero [] h = ([], refl, refl, refl)
first_bytes-split zero (b ∷ v) h = (b ∷ v, refl, refl, refl)
first_bytes-split (suc n) [] h = ground arith
first_bytes-split (suc n) (b ∷ v) h =
    let (rest, whole, size, start) = first_bytes-split n v (omega arith) in
    (rest, ap (◌∷◌ b) whole, omega (arith, size), start)

cut_back-le : (v : Text) (n : ℕ) → cut_back v n ≤ n
unfolding cut_back
cut_back-le v zero = omega arith
cut_back-le v (suc n) = ground (arith, cut_back-le v n)

cut_back-starts : (v : Text) (n : ℕ) → (cut_back v n ≡ 0) ⊎ (starts_at v (cut_back v n) ≡ true)
unfolding cut_back
cut_back-starts v zero = inl refl
cut_back-starts v (suc n) = elim (Bool-cases (starts_at v (suc n))) [
  | inl on ↦ inr (rw (on, on))
  | inr off ↦ rw off (cut_back-starts v n)
]

-- What is left of a text that is cut.
pub record IsCut (v t : Text) (limit : ℕ) : Type 0 where
  pub left : Text
  pub bounded : length t ≤ limit
  pub whole : v ≡ t ++ left
  pub clean : (t ≡ v) ⊎ (is_empty t ≡ true) ⊎ (begins_rune left ≡ true)

empty_of : (t : Text) → length t ≡ 0 → is_empty t ≡ true
empty_of [] e = refl
empty_of (b ∷ t) e = ground arith

first_bytes-IsCut :
    (v : Text) (n : ℕ) → leb (length v) n ≡ false → IsCut v (first_bytes (cut_back v n) v) n
first_bytes-IsCut v n large =
    let k = cut_back v n in
    let below = cut_back-le v n in
    let (rest, whole, size, start) = first_bytes-split k v (ground (arith, below, large)) in
    record {
      left = rest;
      bounded = omega (arith, size, below);
      whole = whole;
      clean = elim (cut_back-starts v n) [
        | inl none_left ↦ inr (inl (empty_of (first_bytes k v) (size ∙ none_left)))
        | inr on ↦ inr (inr (sym start ∙ on))
      ];
    }

truncate_to-IsCut : (v : Text) (n : ℕ) → IsCut v (truncate_to v n) n
truncate_to-IsCut v n =
    let P : Bool → Type 0 = λ b. IsCut v (if b then v else first_bytes (cut_back v n) v) n in
    elim (Bool-cases (leb (length v) n)) [
      | inl small ↦ subst P (sym small) (record {
        left = [];
        bounded = ground (arith, small);
        whole = sym (append-nil v);
        clean = inl refl;
      })
      | inr large ↦ subst P (sym large) (first_bytes-IsCut v n large)
    ]

-- Whatever the text and the limit, the result is a beginning of the text, no longer than the limit allows (and
-- empty under a limit that is not positive), and it is the text itself, or empty, or ends where a byte follows
-- that can start a rune.
pub truncate_utf8-IsCut : (v : Text) (limit : ℤ) → IsCut v (truncate_utf8 v limit) (pos_part limit)
unfolding truncate_utf8
truncate_utf8-IsCut v (pos zero) = record {
  left = v;
  bounded = omega arith;
  whole = refl;
  clean = inr (inl refl);
}
truncate_utf8-IsCut v (pos (suc n)) = truncate_to-IsCut v (suc n)
truncate_utf8-IsCut v (negsuc n) = record {
  left = v;
  bounded = omega arith;
  whole = refl;
  clean = inr (inl refl);
}
