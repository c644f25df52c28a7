-- ===== src/SeqNo.antt =====
-- The DJB-SeqNo header: printf and sscanf with "%09" PRIx64 "%09" PRIx64 (server/djb.c).
pub mod Digits
pub mod RoundTrip
use jumpbox.Base.{
  ℕ, zero, suc, ◌+◌, ◌-◌, ◌*◌, ◌/◌, ◌%◌, ◌^◌, Bool, ◌&&◌, ◌||◌, Option, none, some, [], ◌∷◌, ◌++◌,
  Text, ltb, leb, ◌==◌, if◌then◌else◌, is_digit, skip_space,
}

unfoldable pub hex_digit : ℕ → ℕ
hex_digit d = if ltb d 10 then b'0' + d else b'a' + (d - 10)

-- The digits of n, at least w of them, before `acc`. The first argument is fuel.
unfoldable pub pad_hex : ℕ → ℕ → ℕ → Text → Text
pad_hex zero w n acc = acc
pad_hex (suc f) w n acc =
    let rest = pad_hex f (w - 1) (n / 16) (hex_digit (n % 16) ∷ acc) in
    if (w == 0) && (n == 0) then acc else rest

-- "%09" PRIx64: a 64-bit number has 16 digits at most.
unfoldable pub print_hex : ℕ → Text
unfolding pad_hex hex_digit
print_hex n = pad_hex 16 9 n []

unfoldable pub print_seqno : ℕ → ℕ → Text
unfolding print_hex
print_seqno id reqid = print_hex id ++ print_hex reqid

unfoldable pub hex_value : ℕ → Option ℕ
hex_value c =
    if is_digit c
    then some (c - b'0')
    else (if leb b'a' c && leb c b'f'
        then some (c - b'a' + 10)
        else (if leb b'A' c && leb c b'F' then some (c - b'A' + 10) else none))

-- At most w digits: their value, their number, and the rest of the text.
unfoldable pub read_hex : ℕ → Text → ℕ → ℕ → ℕ × ℕ × Text
read_hex zero s acc n = (acc, n, s)
read_hex (suc w) [] acc n = (acc, n, [])
read_hex (suc w) (c ∷ s) acc n = elim (hex_value c) [
  | some d ↦ read_hex w s (acc * 16 + d) (suc n)
  | none ↦ (acc, n, c ∷ s)
]

-- No digit is a matching failure.
unfoldable pub matched : ℕ × ℕ × Text → Option (ℕ × Text)
matched (v, zero, s) = none
matched (v, suc n, s) = some (v, s)

abbrev is_x : ℕ → Bool
is_x c = (c == b'x') || (c == b'X')

-- The digits, behind a prefix 0x if there is one.
unfoldable pub scan_digits : ℕ → Text → Option (ℕ × Text)
unfolding matched read_hex hex_value
scan_digits w [] = none
scan_digits w (c ∷ []) = matched (read_hex w (c ∷ []) 0 0)
scan_digits w (c ∷ x ∷ s) =
    if ((c == b'0') && is_x x) && ltb 1 w
    then matched (read_hex (w - 2) s 0 0)
    else matched (read_hex w (c ∷ x ∷ s) 0 0)

-- A negative number wraps around in the uint64_t.
unfoldable pub negate : Option (ℕ × Text) → Option (ℕ × Text)
negate none = none
negate (some (v, s)) = some ((2 ^ 64 - v) % 2 ^ 64, s)

unfoldable pub scan_sign : Text → Option (ℕ × Text)
unfolding scan_digits negate
scan_sign [] = none
scan_sign (c ∷ s) =
    if c == b'-'
    then negate (scan_digits 8 s)
    else (if c == b'+' then scan_digits 8 s else scan_digits 9 (c ∷ s))

-- sscanf's "%09" PRIx64: spaces, then at most 9 characters.
unfoldable pub scan_hex : Text → Option (ℕ × Text)
unfolding scan_sign skip_space
scan_hex s = scan_sign (skip_space s)

abbrev scan_second : Option (ℕ × Text) → Option (ℕ × ℕ)
scan_second none = none
scan_second (some (id, s)) = elim (scan_hex s) [ none ↦ none | some (reqid, _) ↦ some (id, reqid) ]

-- sscanf(seqno, "%09" PRIx64 "%09" PRIx64, &id, &reqid), `none` unless it returns 2
unfoldable pub scan_seqno : Text → Option (ℕ × ℕ)
scan_seqno s = scan_second (scan_hex s)
