-- ===== src/Identifiers/Ulids.antt =====
-- NewULID: its text is read back to the time and the random bytes, and is ordered like the time.
use kmtproto.Prelude.{
  ℕ, ◌^◌, ◌<◌, ◌≡◌, refl, ap, subst, ◌∙◌, Bool-cases, inl, inr, true, ◌-◌, ltb, Text, List, [], All,
  length, text_lt, arith, unix_milli,
}
use kmtproto.Wire.{Result, ok, err}
use kmtproto.Identifiers.{to_u64, set_bytes, digits, ulid_text, with_random, at_millis, new_ulid}
use kmtproto.Identifiers.Digits.{read_digits, length-digits, read_digits-digits, text_lt-digits}
use kmtproto.Identifiers.Numbers.{IsByte, ulid_number, raw-number, number-bound, set_bytes-bound}

-- What documentation says of io.ReadFull: without an error, as many bytes as were asked for.
pub record IsReader {W : Type 0} (read_full : ℕ → W → W × Result (List ℕ)) : Type 0 where
  pub delivers :
      (n : ℕ) (w : W) (raw : List ℕ)
      → (read_full n w).1 ≡ ok raw
      → (length raw ≡ n) × All IsByte raw

module _ (millis : ℕ) (random : List ℕ) (small : millis < 2 ^ 48) (ten : length random ≡ 10)
    (fine : All IsByte random) where
  -- The text is the digits of one number.
  ulid_text-digits : ulid_text millis random ≡ digits 26 (ulid_number millis random) []
  unfolding ulid_text
  ulid_text-digits = ap (λ n. digits 26 n []) (raw-number millis random small ten)

  ulid_text-reads : read_digits 0 (ulid_text millis random) ≡ ulid_number millis random
  unfolding read_digits
  ulid_text-reads =
      ap (read_digits 0) ulid_text-digits
      ∙ read_digits-digits 26 (ulid_number millis random) []
          (let few = number-bound millis random small ten fine in omega arith)

  length-ulid_text : length (ulid_text millis random) ≡ 26
  length-ulid_text = ap length ulid_text-digits ∙ length-digits 26 (ulid_number millis random) []

-- An earlier time gives a smaller text, whatever the random bytes.
ulid_text-less :
    (millis later : ℕ) (random others : List ℕ)
    → millis < later
    → later < 2 ^ 48
    → length random ≡ 10
    → length others ≡ 10
    → All IsByte random
    → All IsByte others
    → text_lt (ulid_text millis random) (ulid_text later others) ≡ true
ulid_text-less millis later random others less small ten ten' fine fine' =
    let few : set_bytes 0 random < 2 ^ 80 =
      subst (λ n. set_bytes 0 random < 256 ^ n) ten (set_bytes-bound random fine) in
    let bounded = number-bound later others small ten' fine' in
    let shown =
      text_lt-digits 26 (ulid_number millis random) (ulid_number later others) [] [] (omega arith)
        (omega arith) in
    let e = ulid_text-digits millis random (omega arith) ten fine in
    let e' = ulid_text-digits later others small ten' fine' in
    ap (λ t. text_lt t (ulid_text later others)) e
    ∙ ap (text_lt (digits 26 (ulid_number millis random) [])) e'
    ∙ shown

module _ {W : Type 0} (now : W → W × ℕ) (read_full : ℕ → W → W × Result (List ℕ)) where
  -- The time that an identifier shows.
  abbrev pub millis_at : W → ℕ
  millis_at w = to_u64 (unix_milli (now w).1)

  -- What an identifier was made of.
  record IsMade (w : W) (id : Text) : Type 0 where
    random : List ℕ
    early : millis_at w < 2 ^ 48
    drawn : (read_full 10 (now w).0).1 ≡ ok random
    shown : id ≡ ulid_text (millis_at w) random

  with_random-ok :
      (millis : ℕ) (r : W × Result (List ℕ)) (id : Text)
      → (with_random now read_full millis r).1 ≡ ok id
      → (random : List ℕ) × (r.1 ≡ ok random) × (id ≡ ulid_text millis random)
  with_random-ok millis (w, ok random) id e = (random, refl, ground arith)
  with_random-ok millis (w, err x) id e = cc

  at_millis-ok :
      (w : W) (millis : ℕ) (id : Text)
      → (at_millis now read_full w millis).1 ≡ ok id
      → (millis < 2 ^ 48) × ((with_random now read_full millis (read_full 10 w)).1 ≡ ok id)
  at_millis-ok w millis id e = elim (Bool-cases (ltb (2 ^ 48 - 1) millis)) [
    | inl late ↦ (ground arith, ground arith)
    | inr early ↦ (ground arith, ground arith)
  ]

  at_millis-early :
      (w : W) (millis : ℕ)
      → millis < 2 ^ 48
      → at_millis now read_full w millis ≡ with_random now read_full millis (read_full 10 w)
  at_millis-early w millis early = ground arith

  new_ulid-IsMade : (w : W) (id : Text) → (new_ulid now read_full w).1 ≡ ok id → IsMade w id
  unfolding new_ulid
  new_ulid-IsMade w id e =
      let (early, made) = at_millis-ok (now w).0 (millis_at w) id e in
      let (random, drawn, shown) = with_random-ok (millis_at w) (read_full 10 (now w).0) id made in
      record { random = random; early = early; drawn = drawn; shown = shown }

  with_random-returns :
      (millis : ℕ) (r : W × Result (List ℕ)) (random : List ℕ)
      → r.1 ≡ ok random
      → (with_random now read_full millis r).1 ≡ ok (ulid_text millis random)
  with_random-returns millis (w, ok drawn) random e =
      ap (λ l. ok (ulid_text millis l)) (ground arith)
  with_random-returns millis (w, err x) random e = cc

  new_ulid-returns :
      (w : W) (random : List ℕ)
      → millis_at w < 2 ^ 48
      → (read_full 10 (now w).0).1 ≡ ok random
      → (new_ulid now read_full w).1 ≡ ok (ulid_text (millis_at w) random)
  unfolding new_ulid
  new_ulid-returns w random early drawn =
      ap (λ r. r.1) (at_millis-early (now w).0 (millis_at w) early)
      ∙ with_random-returns (millis_at w) (read_full 10 (now w).0) random drawn

  -- When the clock's milliseconds fit 48 bits and the reader delivers, NewULID returns 26 characters that a
  -- reader of base 32 turns back into the milliseconds and the ten random bytes.
  pub new_ulid-reads_back :
      (w : W) (random : List ℕ)
      → IsReader read_full
      → millis_at w < 2 ^ 48
      → (read_full 10 (now w).0).1 ≡ ok random
      → (id : Text) × ((new_ulid now read_full w).1 ≡ ok id)
        × (length id ≡ 26)
        × (read_digits 0 id ≡ ulid_number (millis_at w) random)
  new_ulid-reads_back w random reader early drawn =
      let (ten, fine) = reader.delivers 10 (now w).0 random drawn in
      (
        ulid_text (millis_at w) random,
        new_ulid-returns w random early drawn,
        length-ulid_text (millis_at w) random early ten fine,
        ulid_text-reads (millis_at w) random early ten fine,
      )

  -- Of two identifiers made at different milliseconds, the text of the earlier one is the smaller, whatever
  -- the random bytes.
  pub text_lt-new_ulid :
      (w v : W) (a b : Text)
      → IsReader read_full
      → (new_ulid now read_full w).1 ≡ ok a
      → (new_ulid now read_full v).1 ≡ ok b
      → millis_at w < millis_at v
      → text_lt a b ≡ true
  text_lt-new_ulid w v a b reader first second less =
      let m = new_ulid-IsMade w a first in
      let n = new_ulid-IsMade v b second in
      let (ten, fine) = reader.delivers 10 (now w).0 m.random m.drawn in
      let (ten', fine') = reader.delivers 10 (now v).0 n.random n.drawn in
      ap (λ t. text_lt t b) m.shown
      ∙ ap (text_lt (ulid_text (millis_at w) m.random)) n.shown
      ∙ ulid_text-less (millis_at w) (millis_at v) m.random n.random less n.early ten ten' fine
          fine'
