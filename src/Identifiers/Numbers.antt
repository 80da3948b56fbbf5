-- ===== src/Identifiers/Numbers.antt =====
-- id.go: the sixteen raw bytes of an identifier as one number.
use native.Mathlib.Omega.{pow_step}
use native.Mathlib.Nat.{add-mul, mul_assoc, mul-le-mul_right}
use kmtproto.Prelude.{
  ℕ, zero, suc, ◌+◌, ◌*◌, ◌/◌, ◌%◌, ◌^◌, ◌<◌, ◌≤◌, ◌≡◌, refl, ap, subst, ◌∙◌, List, [], ◌∷◌, ◌++◌,
  All, length, arith,
}
use kmtproto.Identifiers.{time_bytes, set_bytes}

abbrev pub IsByte : ℕ → Type 0
IsByte b = b < 256

time_bytes-append :
    (k millis : ℕ) (raw rest : List ℕ)
    → time_bytes k millis raw ++ rest ≡ time_bytes k millis (raw ++ rest)
unfolding time_bytes
time_bytes-append zero millis raw rest = refl
time_bytes-append (suc k) millis raw rest =
    time_bytes-append k (millis / 256) (millis % 256 ∷ raw) rest

set_bytes-time_bytes :
    (k millis : ℕ) (raw : List ℕ)
    → millis < 256 ^ k
    → set_bytes 0 (time_bytes k millis raw) ≡ set_bytes millis raw
unfolding time_bytes set_bytes
set_bytes-time_bytes zero millis raw small = ap (λ m. set_bytes m raw) (omega arith)
set_bytes-time_bytes (suc k) millis raw small =
    set_bytes-time_bytes k (millis / 256) (millis % 256 ∷ raw) (omega (arith, pow_step 256 k))
    ∙ ap (λ m. set_bytes m raw) (omega arith)

set_bytes-step : (n b : ℕ) (raw : List ℕ) → set_bytes n (b ∷ raw) ≡ set_bytes (n * 256 + b) raw
unfolding set_bytes
set_bytes-step n b raw = refl

set_bytes-first : (b : ℕ) (raw : List ℕ) → set_bytes 0 (b ∷ raw) ≡ set_bytes b raw
unfolding set_bytes
set_bytes-first b raw = ap (λ m. set_bytes m raw) (omega arith)

-- A number in front counts for as much as there are bytes behind it.
set_bytes-split : (n : ℕ) (raw : List ℕ) → set_bytes n raw ≡ n * 256 ^ length raw + set_bytes 0 raw
unfolding set_bytes
set_bytes-split n [] = omega arith
set_bytes-split n (b ∷ raw) =
    let p = 256 ^ length raw in
    grind (
      arith,
      set_bytes-step n b raw,
      set_bytes-first b raw,
      set_bytes-split (n * 256 + b) raw,
      set_bytes-split b raw,
      pow_step 256 (length raw),
      add-mul (n * 256) b p,
      mul_assoc n 256 p,
    )

pub set_bytes-bound : (raw : List ℕ) → All IsByte raw → set_bytes 0 raw < 256 ^ length raw
unfolding set_bytes
set_bytes-bound [] fine = omega arith
set_bytes-bound (b ∷ raw) fine =
    let p = 256 ^ length raw in
    let few : b * p ≤ 255 * p = mul-le-mul_right p (omega (arith, fine.0)) in
    omega (
      arith,
      set_bytes-first b raw,
      set_bytes-split b raw,
      pow_step 256 (length raw),
      set_bytes-bound raw fine.1,
      few,
    )

-- The number of which an identifier shows the digits.
abbrev pub ulid_number : ℕ → List ℕ → ℕ
ulid_number millis random = millis * 2 ^ 80 + set_bytes 0 random

pub raw-number :
    (millis : ℕ) (random : List ℕ)
    → millis < 2 ^ 48
    → length random ≡ 10
    → set_bytes 0 (time_bytes 6 millis [] ++ random) ≡ ulid_number millis random
raw-number millis random small ten =
    ap (set_bytes 0) (time_bytes-append 6 millis [] random)
    ∙ set_bytes-time_bytes 6 millis random small
    ∙ set_bytes-split millis random
    ∙ ap (λ n. millis * 256 ^ n + set_bytes 0 random) ten

pub number-bound :
    (millis : ℕ) (random : List ℕ)
    → millis < 2 ^ 48
    → length random ≡ 10
    → All IsByte random
    → ulid_number millis random < 2 ^ 128
number-bound millis random small ten fine =
    let few : set_bytes 0 random < 2 ^ 80 =
      subst (λ n. set_bytes 0 random < 256 ^ n) ten (set_bytes-bound random fine) in
    omega arith
