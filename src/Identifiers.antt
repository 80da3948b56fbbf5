-- ===== src/Identifiers.antt =====
-- id.go: ULIDs, and the generators of Session and frame identifiers on top of them. The reader of random
-- bytes and the clock are parameters.
pub mod Digits
pub mod Numbers
pub mod Ulids
use kmtproto.Prelude.{
  ℕ, zero, suc, ◌-◌, ◌+◌, ◌*◌, ◌/◌, ◌%◌, ◌^◌, ℤ, pos, ltb, unix_milli, Text, List, [], ◌∷◌, ◌++◌,
  lit, if◌then◌else◌,
}
use kmtproto.Wire.{Result, ok, err, Err, plain, wrapped}

-- crockfordBase32
abbrev pub alphabet : Text
alphabet = lit "0123456789ABCDEFGHJKMNPQRSTVWXYZ"

-- The byte at an index that is in range.
unfoldable pub byte_at : Text → ℕ → ℕ
byte_at [] i = 0
byte_at (b ∷ rest) zero = b
byte_at (b ∷ rest) (suc i) = byte_at rest i

-- `uint64(x)` of an int64
unfoldable pub to_u64 : ℤ → ℕ
to_u64 (pos n) = n % 2 ^ 64
to_u64 (ℤ.negsuc n) = 2 ^ 64 - 1 - n % 2 ^ 64

-- `raw[i] = byte(millis); millis >>= 8`, from the last of the bytes to the first.
unfoldable pub time_bytes : ℕ → ℕ → List ℕ → List ℕ
time_bytes zero millis raw = raw
time_bytes (suc i) millis raw = time_bytes i (millis / 256) (millis % 256 ∷ raw)

-- `new(big.Int).SetBytes(raw)`, the bytes behind a number that is already read
unfoldable pub set_bytes : ℕ → List ℕ → ℕ
set_bytes n [] = n
set_bytes n (b ∷ raw) = set_bytes (n * 256 + b) raw

-- `out[i] = crockfordBase32[n % 32]; n /= 32`, from the last of the characters to the first.
unfoldable pub digits : ℕ → ℕ → Text → Text
unfolding byte_at
digits zero n out = out
digits (suc i) n out = digits i (n / 32) (byte_at alphabet (n % 32) ∷ out)

unfoldable pub ulid_text : ℕ → List ℕ → Text
unfolding time_bytes set_bytes digits
ulid_text millis random = digits 26 (set_bytes 0 (time_bytes 6 millis [] ++ random)) []

module _ {W : Type 0} (now : W → W × ℕ) (read_full : ℕ → W → W × Result (List ℕ)) where
  abbrev pub with_random : ℕ → W × Result (List ℕ) → W × Result Text
  with_random millis (w, ok random) = (w, ok (ulid_text millis random))
  with_random millis (w, err e) = (w, err (wrapped (lit "kmtproto: generate ULID randomness: ") e))

  abbrev pub at_millis : W → ℕ → W × Result Text
  at_millis w millis =
      if ltb (2 ^ 48 - 1) millis
      then (w, err (plain (lit "kmtproto: ULID timestamp out of range")))
      else with_random millis (read_full 10 w)

  unfoldable pub new_ulid : W → W × Result Text
  unfolding ulid_text to_u64
  new_ulid w = at_millis (now w).0 (to_u64 (unix_milli (now w).1))

  abbrev pub prefixed : Text → W × Result Text → W × Result Text
  prefixed prefix (w, ok id) = (w, ok (prefix ++ id))
  prefixed prefix (w, err e) = (w, err e)

  unfoldable pub default_session_id_generator : W → W × Result Text
  unfolding new_ulid
  default_session_id_generator w = prefixed (lit "s_") (new_ulid w)

  unfoldable pub default_frame_id_generator : W → W × Result Text
  unfolding new_ulid
  default_frame_id_generator w = prefixed (lit "f_") (new_ulid w)
