-- ===== src/Atoi.antt =====
-- libc's atoi, as the unsigned int that the callers store (server/acs.c, server/preferences.c).
use Prim.Native.Nat.{min}
use jumpbox.Base.{
  ℕ, ◌+◌, ◌-◌, ◌*◌, ◌%◌, ◌^◌, [], ◌∷◌, Text, is_digit, skip_space, ◌==◌, if◌then◌else◌,
}

-- The value of the leading digits, behind those that `acc` holds.
unfoldable pub digits_value : ℕ → Text → ℕ
digits_value acc [] = acc
digits_value acc (c ∷ s) =
    let rest = digits_value (acc * 10 + (c - b'0')) s in if is_digit c then rest else acc

-- strtol stops at LONG_MAX and LONG_MIN; the cast to unsigned int keeps the low 32 bits.
unfoldable pub atoi_sign : Text → ℕ
unfolding digits_value
atoi_sign [] = 0
atoi_sign (c ∷ s) =
    if c == b'-'
    then (2 ^ 64 - min (2 ^ 63) (digits_value 0 s)) % 2 ^ 32
    else min (2 ^ 63 - 1) (digits_value 0 (if c == b'+' then s else c ∷ s)) % 2 ^ 32

unfoldable pub atoi : Text → ℕ
unfolding atoi_sign skip_space
atoi s = atoi_sign (skip_space s)
