-- ===== src/Tests/Identifiers.antt =====
-- Identifiers of a clock that counts milliseconds from 1970, with a reader that delivers sevens.
use kmtproto.Prelude.{
  subst, ℕ, zero, suc, ◌+◌, ◌*◌, ◌^◌, ◌≡◌, refl, true, Text, List, [], ◌∷◌, All, length, unix_milli,
  text_lt, arith,
}
use kmtproto.Wire.{Result, ok}
use kmtproto.Identifiers.{new_ulid, ulid_text, to_u64}
use kmtproto.Identifiers.Digits.{read_digits}
use kmtproto.Identifiers.Numbers.{IsByte, ulid_number}
use kmtproto.Identifiers.Ulids.{IsReader, new_ulid-reads_back, text_lt-new_ulid}

abbrev ticking : ℕ → ℕ × ℕ
ticking w = (w, 62135596800 * 10 ^ 9 + w * 10 ^ 6)

abbrev sevens : ℕ → List ℕ
sevens zero = []
sevens (suc n) = 7 ∷ sevens n

abbrev read_sevens : ℕ → ℕ → ℕ × Result (List ℕ)
read_sevens n w = (w, ok (sevens n))

length-sevens : (n : ℕ) → length (sevens n) ≡ n
length-sevens zero = refl
length-sevens (suc n) = omega (arith, length-sevens n)

sevens-IsByte : (n : ℕ) → All IsByte (sevens n)
sevens-IsByte zero = tt
sevens-IsByte (suc n) = (omega arith, sevens-IsByte n)

read_sevens-IsReader : IsReader read_sevens
read_sevens-IsReader = record {
  delivers = λ n w raw e.
      subst (λ l. (length l ≡ n) × All IsByte l) (ground arith) (length-sevens n, sevens-IsByte n);
}

-- Made at a millisecond w after 1970.
abbrev made : ℕ → Text
made w = ulid_text w (sevens 10)

new_ulid-made : (new_ulid ticking read_sevens 5).1 ≡ ok (made 5)
unfolding new_ulid to_u64 unix_milli
new_ulid-made = refl

new_ulid-reads_back_example :
    (id : Text) × ((new_ulid ticking read_sevens 5).1 ≡ ok id)
    × (length id ≡ 26)
    × (read_digits 0 id ≡ ulid_number 5 (sevens 10))
unfolding to_u64 unix_milli
new_ulid-reads_back_example =
    new_ulid-reads_back ticking read_sevens 5 (sevens 10) read_sevens-IsReader (omega arith) refl

new_ulid-made_later : (new_ulid ticking read_sevens 70000).1 ≡ ok (made 70000)
unfolding new_ulid to_u64 unix_milli
new_ulid-made_later = refl

text_lt-new_ulid_example : text_lt (made 5) (made 70000) ≡ true
unfolding to_u64 unix_milli
text_lt-new_ulid_example =
    text_lt-new_ulid ticking read_sevens 5 70000 (made 5) (made 70000) read_sevens-IsReader
      new_ulid-made new_ulid-made_later (omega arith)
