-- ===== src/Identifiers/Digits.antt =====
-- The characters of an identifier: fixed in number, ordered like the numbers that they write, and read back
-- by a reference reader.
use native.Mathlib.Omega.{pow_step}
use native.Mathlib.Decide.{dec_lt}
use kmtproto.Prelude.{
  ℕ, zero, suc, ◌+◌, ◌*◌, ◌/◌, ◌%◌, ◌^◌, ◌<◌, ◌≡◌, refl, ap, subst, ◌∙◌, Bool, true, ltb, nat_beq,
  Text, [], ◌∷◌, length, text_lt, if◌then◌else◌, arith, lit, ◌&&◌,
}
use kmtproto.Identifiers.{alphabet, byte_at, digits}

-- The index of a character, as `strings.IndexByte` has it, or the length.
abbrev index_of : ℕ → Text → ℕ
index_of c [] = 0
index_of c (b ∷ rest) = let later = suc (index_of c rest) in if nat_beq b c then 0 else later

-- The number that a text writes in base 32, behind one already read.
unfoldable pub read_digits : ℕ → Text → ℕ
read_digits n [] = n
read_digits n (c ∷ rest) = read_digits (n * 32 + index_of c alphabet) rest

pub length-digits : (k n : ℕ) (out : Text) → length (digits k n out) ≡ k + length out
unfolding digits
length-digits zero n out = omega arith
length-digits (suc k) n out =
    omega (arith, length-digits k (n / 32) (byte_at alphabet (n % 32) ∷ out))

-- A test of all numbers below a bound.
all_below : (ℕ → Bool) → ℕ → Bool
all_below test zero = true
all_below test (suc n) = test n && all_below test n

all_below-at : (test : ℕ → Bool) (n i : ℕ) → all_below test n ≡ true → i < n → test i ≡ true
unfolding all_below
all_below-at test zero i h small = ground arith
all_below-at test (suc n) i h small = elim (dec_lt i n) [
  | yes less ↦ all_below-at test n i (ground arith) less
  | no more ↦ let e : n ≡ i = omega arith in subst (λ m. test m ≡ true) e (ground arith)
]

abbrev reads_back : ℕ → Bool
reads_back i = nat_beq (index_of (byte_at alphabet i) alphabet) i

abbrev lies_below : ℕ → ℕ → Bool
lies_below i j = ltb (byte_at alphabet j) (byte_at alphabet i)

abbrev lies_above : ℕ → Bool
lies_above i = all_below (lies_below i) i

all-reads_back : all_below reads_back 32 ≡ true
unfolding all_below byte_at lit
all-reads_back = refl

all-lies_above : all_below lies_above 32 ≡ true
unfolding all_below byte_at lit
all-lies_above = refl

index_of-byte_at : (i : ℕ) → i < 32 → index_of (byte_at alphabet i) alphabet ≡ i
index_of-byte_at i small = ground (arith, all_below-at reads_back 32 i all-reads_back small)

byte_at-less : (i j : ℕ) → j < i → i < 32 → ltb (byte_at alphabet j) (byte_at alphabet i) ≡ true
byte_at-less i j less small =
    all_below-at (lies_below i) i j (all_below-at lies_above 32 i all-lies_above small) less

-- The reference reader finds the number again, and goes on behind it.
pub read_digits-digits :
    (k n : ℕ) (out : Text) → n < 32 ^ k → read_digits 0 (digits k n out) ≡ read_digits n out
unfolding digits read_digits
read_digits-digits zero n out small = ap (λ m. read_digits m out) (omega arith)
read_digits-digits (suc k) n out small =
    read_digits-digits k (n / 32) (byte_at alphabet (n % 32) ∷ out) (omega (arith, pow_step 32 k))
    ∙ ap (λ m. read_digits m out) (omega (arith, index_of-byte_at (n % 32) (omega arith)))

-- Texts of as many characters are ordered like the numbers that they write.
text_lt-same : (k n : ℕ) (s t : Text) → text_lt (digits k n s) (digits k n t) ≡ text_lt s t
unfolding digits text_lt
text_lt-same zero n s t = refl
text_lt-same (suc k) n s t =
    text_lt-same k (n / 32) (byte_at alphabet (n % 32) ∷ s) (byte_at alphabet (n % 32) ∷ t)
    ∙ ground arith

pub text_lt-digits :
    (k n m : ℕ) (s t : Text) → n < m → m < 32 ^ k → text_lt (digits k n s) (digits k m t) ≡ true
unfolding digits text_lt
text_lt-digits zero n m s t less small = ground arith
text_lt-digits (suc k) n m s t less small = elim (dec_lt (n / 32) (m / 32)) [
  | yes before ↦ text_lt-digits k (n / 32) (m / 32) _ _ before (omega (arith, pow_step 32 k))
  | no same ↦
      let e : n / 32 ≡ m / 32 = omega arith in
      let first = byte_at-less (m % 32) (n % 32) (omega arith) (omega arith) in
      rw e (text_lt-same k (m / 32) _ _ ∙ ground arith)
]
