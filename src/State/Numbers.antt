-- ===== src/State/Numbers.antt =====
-- state.go: normalizeStateJSONNumber. `big.Int` is an unbounded integer; two of them have the same
-- decimal text exactly when they are equal, so the exponent is kept as an integer.
use kmtproto.Prelude.{
  ℕ, ◌+◌, ◌*◌, ◌-◌, ℤ, pos, Bool, true, false, ◌&&◌, ◌||◌, Text, [], ◌∷◌, ◌++◌, Option, none, some,
  length, is_empty, nat_beq, leb, ◌+ℤ◌, ◌-ℤ◌, if◌then◌else◌, text_eq, lit, ◌≡◌, refl, pos_part,
  neg_part,
}

pub record NormalizedNumber : Type 0 where
  pub negative : Bool
  pub coefficient : Text
  pub exponent : ℤ

parse_digits : ℕ → Text → Option ℕ
parse_digits n [] = some n
parse_digits n (ch ∷ rest) =
    let more = parse_digits (n * 10 + (ch - b'0')) rest in
    if leb b'0' ch && leb ch b'9' then more else none

parse_nat : Text → Option ℕ
unfolding parse_digits
parse_nat [] = none
parse_nat (ch ∷ rest) = parse_digits 0 (ch ∷ rest)

abbrev minus : ℕ → ℤ
minus n = pos 0 -ℤ pos n

-- SetString(text, 10)
parse_int : Text → Option ℤ
unfolding parse_nat
parse_int [] = none
parse_int (ch ∷ rest) =
    if nat_beq ch b'-'
    then elim (parse_nat rest) [ none ↦ none | some n ↦ some (minus n) ]
    else if nat_beq ch b'+'
    then elim (parse_nat rest) [ none ↦ none | some n ↦ some (pos n) ]
    else elim (parse_nat (ch ∷ rest)) [ none ↦ none | some n ↦ some (pos n) ]

-- The text before the first byte that passes the test, and what follows that byte.
split_at : (ℕ → Bool) → Text → Text × Option Text
split_at test [] = ([], none)
split_at test (ch ∷ rest) =
    let (before, after) = split_at test rest in
    if test ch then ([], some rest) else (ch ∷ before, after)

trim_left_zeros : Text → Text
trim_left_zeros [] = []
trim_left_zeros (ch ∷ rest) =
    let more = trim_left_zeros rest in if nat_beq ch b'0' then more else ch ∷ rest

trim_right_zeros : Text → Text
trim_right_zeros [] = []
trim_right_zeros (ch ∷ rest) =
    let more = trim_right_zeros rest in if nat_beq ch b'0' && is_empty more then [] else ch ∷ more

is_exponent_mark : ℕ → Bool
is_exponent_mark ch = nat_beq ch b'e' || nat_beq ch b'E'

zero_number : NormalizedNumber
zero_number = record { negative = false; coefficient = b'0' ∷ []; exponent = pos 0 }

-- The mantissa, with its sign and point taken off, and the exponent.
assemble : Bool → Text → Text → ℤ → NormalizedNumber
unfolding trim_left_zeros trim_right_zeros zero_number
assemble negative whole fraction exponent =
    let digits = trim_left_zeros (whole ++ fraction) in
    let kept = trim_right_zeros digits in
    if is_empty digits then zero_number else record {
      negative = negative;
      coefficient = kept;
      exponent = exponent -ℤ pos (length fraction) +ℤ pos (length digits - length kept);
    }

unsigned : Bool → Text → Option NormalizedNumber
unfolding split_at is_exponent_mark parse_int assemble
unsigned negative text =
    let (mantissa, exponent_text) = split_at is_exponent_mark text in
    let (whole, fraction) = split_at (λ ch. nat_beq ch b'.') mantissa in
    let digits : Text = elim fraction [ none ↦ [] | some f ↦ f ] in
    elim (parse_int (elim exponent_text [ none ↦ b'0' ∷ [] | some t ↦ t ])) [
      | none ↦ none
      | some exponent ↦ some (assemble negative whole digits exponent)
    ]

unfoldable pub normalize_number : Text → Option NormalizedNumber
unfolding unsigned
normalize_number [] = unsigned false []
normalize_number (ch ∷ rest) =
    if nat_beq ch b'-' then unsigned true rest else unsigned false (ch ∷ rest)

int_eq : ℤ → ℤ → Bool
int_eq a b = nat_beq (pos_part a) (pos_part b) && nat_beq (neg_part a) (neg_part b)

-- `==` on the struct
unfoldable pub same_number : NormalizedNumber → NormalizedNumber → Bool
unfolding int_eq text_eq
same_number a b =
    elim a.negative [ true ↦ b.negative | false ↦ (if b.negative then false else true) ]
    && text_eq a.coefficient b.coefficient
    && int_eq a.exponent b.exponent

normalize_number_test : normalize_number (lit "-12.50e3") ≡ normalize_number (lit "-1250E+1")
unfolding normalize_number lit ◌-ℤ◌ ◌+ℤ◌
normalize_number_test = refl
