-- ===== src/Decimal.antt =====
-- printf's %u and PRIu64.
use jumpbox.Base.{ℕ, zero, suc, ◌+◌, ◌/◌, ◌%◌, [], ◌∷◌, Text, ltb, if◌then◌else◌}

-- The digits of n before `acc`; the first argument is fuel.
unfoldable pub decimal_digits : ℕ → ℕ → Text → Text
decimal_digits zero n acc = acc
decimal_digits (suc f) n acc =
    let rest = decimal_digits f (n / 10) ((b'0' + n % 10) ∷ acc) in
    if ltb n 10 then (b'0' + n) ∷ acc else rest

-- A 64-bit number has 20 digits at most.
unfoldable pub print_decimal : ℕ → Text
unfolding decimal_digits
print_decimal n = decimal_digits 20 n []
