-- ===== src/Prelude/Clock.antt =====
-- Unsigned 64-bit addition, and instants: nanoseconds since Go's zero time, which is the year 1.
use Prim.Native.Nat.{ℕ, ◌+◌, ◌-◌, ◌*◌, ◌/◌, ◌%◌, ◌^◌}
use kmtproto.Prelude.Tests.{leb, if◌then◌else◌}
use kmtproto.Prelude.Int.{ℤ, pos, negsuc}

-- uint64 addition
abbrev pub add_u64 : ℕ → ℕ → ℕ
add_u64 a b = (a + b) % 2 ^ 64

-- From year 1 to 1970, in nanoseconds.
abbrev unix_epoch : ℕ
unix_epoch = 62135596800 * 10 ^ 9

-- now.UnixMilli(), rounded down.
unfoldable pub unix_milli : ℕ → ℤ
unix_milli now =
    if leb unix_epoch now
    then pos ((now - unix_epoch) / 10 ^ 6)
    else negsuc ((unix_epoch - now - 1) / 10 ^ 6)
