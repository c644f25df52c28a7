-- ===== src/SeqNo/Digits.antt =====
-- What print_hex writes, and how the reader of sscanf takes it.
use native.Mathlib.Nat.{pow-suc, one-le-pow}
use jumpbox.Base.{
  ℕ, zero, suc, ◌+◌, ◌-◌, ◌*◌, ◌/◌, ◌%◌, ◌^◌, ◌≤◌, ◌<◌, ◌≡◌, refl, ap, ◌∙◌, false, ◌||◌, some, [],
  ◌∷◌, ◌++◌, Text, arith, ◌==◌, is_space, inl, inr, Option-cases,
}
use jumpbox.SeqNo.{hex_digit, pad_hex, hex_value, read_hex, matched, scan_hex}

hex_value-hex_digit : (d : ℕ) → d < 16 → hex_value (hex_digit d) ≡ some d
unfolding hex_value hex_digit
hex_value-hex_digit d h = ground arith

abbrev IsHex : ℕ → Type 0
IsHex c = (d : ℕ) × (d < 16) × (c ≡ hex_digit d)

IsHex-not_space : (c : ℕ) → IsHex c → is_space c ≡ false
unfolding hex_digit is_space
IsHex-not_space c (d, h, e) = ground arith

IsHex-not_sign : (c : ℕ) → IsHex c → ((c == b'-') ≡ false) × ((c == b'+') ≡ false)
unfolding hex_digit
IsHex-not_sign c (d, h, e) = ground arith

IsHex-not_x : (c : ℕ) → IsHex c → ((c == b'x') || (c == b'X')) ≡ false
unfolding hex_digit
IsHex-not_x c (d, h, e) = ground arith

-- The text begins with two digits.
abbrev pub Starts : Text → Type 0
Starts [] = ⊥
Starts (c ∷ []) = ⊥
Starts (c ∷ x ∷ s) = IsHex c × IsHex x

IsHex-hex_digit : (n : ℕ) → IsHex (hex_digit (n % 16))
IsHex-hex_digit n = (n % 16, omega arith, refl)

Starts-cons : (n : ℕ) (s : Text) → Starts s → Starts (hex_digit (n % 16) ∷ s)
Starts-cons n [] h = absurd h
Starts-cons n (c ∷ []) h = absurd h
Starts-cons n (c ∷ x ∷ s) h = (IsHex-hex_digit n, h.0)

pub Starts-pad_hex : (f w n : ℕ) (acc : Text) → Starts acc → Starts (pad_hex f w n acc)
unfolding pad_hex
Starts-pad_hex zero w n acc h = h
Starts-pad_hex (suc f) w n acc h =
    ground
      (arith, Starts-pad_hex f (w - 1) (n / 16) (hex_digit (n % 16) ∷ acc) (Starts-cons n acc h))

-- Every number begins with two digits, being padded.
pub Starts-print_hex : (n : ℕ) (t : Text) → Starts (pad_hex 16 9 n t)
unfolding pad_hex
Starts-print_hex n t =
    Starts-pad_hex 14 7 (n / 16 / 16) (hex_digit (n / 16 % 16) ∷ hex_digit (n % 16) ∷ t)
      (IsHex-hex_digit (n / 16), IsHex-hex_digit n)

pub pad_hex-append : (f w n : ℕ) (acc t : Text) → pad_hex f w n acc ++ t ≡ pad_hex f w n (acc ++ t)
unfolding pad_hex
pad_hex-append zero w n acc t = refl
pad_hex-append (suc f) w n acc t =
    ground (arith, pad_hex-append f (w - 1) (n / 16) (hex_digit (n % 16) ∷ acc) t)

-- With a sign, a space or a prefix 0x ruled out, nine digits are read.
pub scan_hex-Starts : (s : Text) → Starts s → scan_hex s ≡ matched (read_hex 9 s 0 0)
unfolding scan_hex
scan_hex-Starts [] h = absurd h
scan_hex-Starts (c ∷ []) h = absurd h
scan_hex-Starts (c ∷ x ∷ s) h =
    ground (arith, IsHex-not_space c h.0, IsHex-not_sign c h.0, IsHex-not_x x h.1)

pad_hex-suc :
    (f w n : ℕ) (acc : Text)
    → pad_hex (suc f) (suc w) n acc ≡ pad_hex f w (n / 16) (hex_digit (n % 16) ∷ acc)
unfolding pad_hex
pad_hex-suc f w n acc = let e : suc w - 1 ≡ w = omega arith in rw e (ground arith)

read_hex-suc :
    (w d v k : ℕ) (s : Text)
    → d < 16
    → read_hex (suc w) (hex_digit d ∷ s) v k ≡ read_hex w s (v * 16 + d) (suc k)
unfolding read_hex
read_hex-suc w d v k s h = rw (hex_value-hex_digit d h, read_hex)

value_step : (p v n : ℕ) → (v * p + n / 16) * 16 + n % 16 ≡ v * (p * 16) + n
value_step p v n = grind arith

add_suc : (w k : ℕ) → suc (w + k) ≡ w + suc k
add_suc w k = omega arith

-- The w digits that are written for n are read back, whatever follows.
pub read_hex-pad_hex :
    (f w j n v k : ℕ) (acc : Text)
    → w ≤ f
    → n < 16 ^ w
    → read_hex (w + j) (pad_hex f w n acc) v k ≡ read_hex j acc (v * 16 ^ w + n) (w + k)
read_hex-pad_hex zero zero j n v k acc hf hn =
    let a : 0 + j ≡ j = omega arith in
    let b : v * 16 ^ 0 + n ≡ v = omega arith in
    let c : 0 + k ≡ k = omega arith in rw (a, b, c) (unfold pad_hex in refl)
read_hex-pad_hex (suc f) zero j n v k acc hf hn =
    let a : 0 + j ≡ j = omega arith in
    let b : v * 16 ^ 0 + n ≡ v = omega arith in
    let c : 0 + k ≡ k = omega arith in
    let d : n ≡ 0 = omega arith in rw (a, b, c, d) (unfold pad_hex in refl)
read_hex-pad_hex zero (suc w) j n v k acc hf hn = absurd (omega arith)
read_hex-pad_hex (suc f) (suc w) j n v k acc hf hn =
    let a : suc w + j ≡ w + suc j = omega arith in
    let c : suc w + k ≡ w + suc k = omega arith in
    let small : n / 16 < 16 ^ w = omega (arith, pow-suc 16 w) in
    rw (pad_hex-suc, a, c, pow-suc 16 w, ← value_step (16 ^ w) v n)
      (read_hex-pad_hex f w (suc j) (n / 16) v k (hex_digit (n % 16) ∷ acc) (omega arith) small
        ∙ read_hex-suc j (n % 16) (v * 16 ^ w + n / 16) (w + k) acc (omega arith)
        ∙ ap (read_hex j acc ((v * 16 ^ w + n / 16) * 16 + n % 16)) (add_suc w k))

hex_value-lt : (c d : ℕ) → hex_value c ≡ some d → d < 16
unfolding hex_value
hex_value-lt c d h = ground arith

digit_bound : (p acc d r : ℕ) → d < 16 → r < (acc * 16 + d + 1) * p → r < (acc + 1) * (p * 16)
digit_bound p acc d r h k = grind arith

short_bound : (p acc : ℕ) → 1 ≤ p → acc < (acc + 1) * p
short_bound p acc h = grind arith

-- A number of w digits is below 16 ^ w.
pub read_hex-lt : (w : ℕ) (s : Text) (acc n : ℕ) → (read_hex w s acc n).0 < (acc + 1) * 16 ^ w
unfolding read_hex
read_hex-lt zero s acc n = omega arith
read_hex-lt (suc w) [] acc n = short_bound _ acc (one-le-pow (suc w) 16 (omega arith))
read_hex-lt (suc w) (c ∷ s) acc n = elim (Option-cases (hex_value c)) [
  | inl e ↦ rw (e, read_hex) (short_bound _ acc (one-le-pow (suc w) 16 (omega arith)))
  | inr (d, e) ↦
      rw (e, read_hex, pow-suc 16 w)
        (digit_bound (16 ^ w) acc d _ (hex_value-lt c d e) (read_hex-lt w s (acc * 16 + d) (suc n)))
]
