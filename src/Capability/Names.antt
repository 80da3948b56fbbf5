-- ===== src/Capability/Names.antt =====
-- capability.go: validateCapabilityName, allASCIIDigits.
use kmtproto.Prelude.{
  ℕ, pos, Bool, true, false, not, ◌&&◌, ◌||◌, Text, [], ◌∷◌, ◌++◌, length, is_empty, leb, ltb_ℤ,
  nat_beq, lit, valid_string, if◌then◌else◌,
}
use kmtproto.Wire.{Limits, Result, Err, invalid_capability, new_protocol_error, refuse_if, ◌>>◌}

unfoldable pub is_lower : ℕ → Bool
is_lower ch = leb b'a' ch && leb ch b'z'

unfoldable pub is_digit : ℕ → Bool
is_digit ch = leb b'0' ch && leb ch b'9'

unfoldable pub is_separator : ℕ → Bool
is_separator ch = nat_beq ch b'.' || nat_beq ch b'-'

-- The loop over `name[1:]`; the flag says whether the byte before was a separator.
unfoldable pub scan_name : Bool → Text → Bool
unfolding is_lower is_digit is_separator
scan_name separator [] = not separator
scan_name separator (ch ∷ rest) = elim (is_lower ch || is_digit ch) [
  | true ↦ scan_name false rest
  | false ↦ elim (is_separator ch && not separator) [ true ↦ scan_name true rest | false ↦ false ]
]

unfoldable pub all_ascii_digits : Text → Bool
unfolding is_digit
all_ascii_digits [] = false
all_ascii_digits (ch ∷ []) = is_digit ch
all_ascii_digits (ch ∷ next ∷ rest) = is_digit ch && all_ascii_digits (next ∷ rest)

-- The last of `strings.FieldsFunc(name, …)`: fields are the maximal runs without a separator. The
-- name ends in no separator, so this is what follows the last one.
last_field : Text → Text → Text
unfolding is_separator
last_field field [] = field
last_field field (ch ∷ rest) = last_field (if is_separator ch then [] else field ++ ch ∷ []) rest

is_version_suffix : Text → Bool
unfolding all_ascii_digits
is_version_suffix [] = false
is_version_suffix (ch ∷ rest) = not (is_empty rest) && nat_beq ch b'v' && all_ascii_digits rest

starts_lower : Text → Bool
unfolding is_lower
starts_lower [] = false
starts_lower (ch ∷ rest) = is_lower ch

rest_of : Text → Text
rest_of [] = []
rest_of (ch ∷ rest) = rest

bad_name : Text → Err
bad_name name = new_protocol_error invalid_capability (lit "invalid capability name: " ++ name)

unfoldable pub validate_capability_name : Text → Limits → Result (Unit {0})
unfolding scan_name last_field is_version_suffix starts_lower rest_of bad_name
validate_capability_name name limits = do
  refuse_if
      (is_empty name
        || ltb_ℤ limits.max_capability_name_length (pos (length name))
        || not (valid_string name))
      (new_protocol_error invalid_capability (lit "invalid or oversized capability name"))
  refuse_if (not (starts_lower name)) (bad_name name)
  refuse_if (not (scan_name false (rest_of name))) (bad_name name)
  refuse_if (is_version_suffix (last_field [] name)) (
      new_protocol_error invalid_capability
        (lit "capability version must use the numeric version field"))
