-- ===== src/Prelude/Utf8.antt =====
-- `unicode/utf8` and `unicode.IsControl`, as the source uses them: a text is valid when it is a
-- sequence of shortest-form encodings of scalar values, and ranging over it yields those values.
use Prim.Native.Nat.{ℕ, ◌+◌, ◌*◌, ◌-◌}
use mathlib.Core.Path.{◌≡◌, refl}
use mathlib.Core.Bool.{Bool, true, false, ◌&&◌, ◌||◌}
use mathlib.Core.Option.{Option, none, some}
use mathlib.Core.List.{List, [], ◌∷◌}
use kmtproto.Prelude.Tests.{nat_beq, leb, ltb, if◌then◌else◌}
use kmtproto.Prelude.Bytes.{Text, lit}

-- The continuation bytes still wanted, the range of the next one, and the bits read so far.
record Reading : Type 0 where
  wanted : ℕ
  low : ℕ
  high : ℕ
  bits : ℕ

abbrev fresh : Reading
fresh = record { wanted = 0; low = 0x80; high = 0xbf; bits = 0 }

in_range : ℕ → ℕ → ℕ → Bool
in_range lo hi b = leb lo b && leb b hi

-- The first byte of an encoding that takes more bytes.
lead : ℕ → Option Reading
unfolding in_range
lead b =
    if in_range 0xc2 0xdf b
    then some (record { wanted = 1; low = 0x80; high = 0xbf; bits = b - 0xc0 })
    else if nat_beq b 0xe0
    then some (record { wanted = 2; low = 0xa0; high = 0xbf; bits = 0 })
    else if nat_beq b 0xed
    then some (record { wanted = 2; low = 0x80; high = 0x9f; bits = 0xd })
    else if in_range 0xe1 0xef b
    then some (record { wanted = 2; low = 0x80; high = 0xbf; bits = b - 0xe0 })
    else if nat_beq b 0xf0
    then some (record { wanted = 3; low = 0x90; high = 0xbf; bits = 0 })
    else if in_range 0xf1 0xf3 b
    then some (record { wanted = 3; low = 0x80; high = 0xbf; bits = b - 0xf0 })
    else if nat_beq b 0xf4
    then some (record { wanted = 3; low = 0x80; high = 0x8f; bits = 4 })
    else none

-- One byte: the next state, and the scalar value that it completes, if any.
take_byte : Reading → ℕ → Option (Reading × List ℕ)
unfolding lead
take_byte r b =
    if nat_beq r.wanted 0
    then (if ltb b 0x80
        then some (fresh, b ∷ [])
        else elim (lead b) [ none ↦ none | some next ↦ some (next, []) ])
    else if in_range r.low r.high b
    then (let bits = r.bits * 64 + (b - 0x80) in
        if nat_beq r.wanted 1
        then some (fresh, bits ∷ [])
        else some (record { wanted = r.wanted - 1; low = 0x80; high = 0xbf; bits = bits }, []))
    else none

abbrev emit : List ℕ → Option (List ℕ) → Option (List ℕ)
emit new none = none
emit [] (some rest) = some rest
emit (r ∷ new) (some rest) = some (r ∷ rest)

decode_from : Reading → Text → Option (List ℕ)
unfolding take_byte
decode_from r [] = if nat_beq r.wanted 0 then some [] else none
decode_from r (b ∷ t) = elim (take_byte r b) [
  | none ↦ none
  | some (next, new) ↦ emit new (decode_from next t)
]

-- The runes of a valid text; none of an invalid one.
unfoldable pub runes : Text → Option (List ℕ)
unfolding decode_from
runes t = decode_from fresh t

-- utf8.ValidString
unfoldable pub valid_string : Text → Bool
unfolding runes
valid_string t = elim (runes t) [ none ↦ false | some rs ↦ true ]

-- unicode.IsControl: U+0000 to U+001F and U+007F to U+009F.
is_control : ℕ → Bool
is_control r = ltb r 0x20 || in_range 0x7f 0x9f r

any_control : List ℕ → Bool
any_control [] = false
any_control (r ∷ rs) = is_control r || any_control rs

-- Whether `range` over a valid text meets a control character.
unfoldable pub has_control : Text → Bool
unfolding runes any_control is_control
has_control t = elim (runes t) [ none ↦ false | some rs ↦ any_control rs ]

valid_string_tests :
    (valid_string (0xc3 ∷ 0xa9 ∷ b'a' ∷ []) ≡ true)
    × (valid_string (0xed ∷ 0xa0 ∷ 0x80 ∷ []) ≡ false)
    × (valid_string (0xc3 ∷ []) ≡ false)
    × (has_control (0xc2 ∷ 0x85 ∷ []) ≡ true)
    × (has_control (lit "session-1") ≡ false)
unfolding valid_string has_control lit
valid_string_tests = (refl, refl, refl, refl, refl)
