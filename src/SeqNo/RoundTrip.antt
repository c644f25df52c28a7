-- ===== src/SeqNo/RoundTrip.antt =====
-- What djb_push reads of the DJB-SeqNo that djb_handle_forward wrote.
use jumpbox.Base.{
  ℕ, ◌+◌, ◌*◌, ◌^◌, ◌<◌, ◌≡◌, ◌↔◌, refl, sym, ◌∙◌, some, none, [], Text, arith, Option-cases, inl,
  inr,
}
use jumpbox.SeqNo.{pad_hex, print_hex, print_seqno, read_hex, matched, scan_hex, scan_seqno}
use jumpbox.SeqNo.Digits.{
  Starts-print_hex, pad_hex-append, scan_hex-Starts, read_hex-pad_hex, read_hex-lt,
}

abbrev pub limit : ℕ
limit = 16 ^ 9

print_hex_lem : (n : ℕ) → print_hex n ≡ pad_hex 16 9 n []
unfolding print_hex
print_hex_lem n = refl

print_seqno_lem : (id reqid : ℕ) → print_seqno id reqid ≡ pad_hex 16 9 id (print_hex reqid)
unfolding print_seqno
print_seqno_lem id reqid = pad_hex-append 16 9 id [] (print_hex reqid)

scan_hex-pad_hex : (n : ℕ) (t : Text) → n < limit → scan_hex (pad_hex 16 9 n t) ≡ some (n, t)
unfolding matched read_hex
scan_hex-pad_hex n t h = rw (scan_hex-Starts (pad_hex 16 9 n t) (Starts-print_hex n t)) (
    let e : 0 * limit + n ≡ n = omega arith in
    rw (read_hex-pad_hex 16 9 0 n 0 0 t (omega arith) h, e))

matched-lt :
    (r : ℕ × ℕ × Text) {n : ℕ} {s : Text} → r.0 < limit → matched r ≡ some (n, s) → n < limit
unfolding matched
matched-lt (v, k, s) h e = ground arith

scan_hex-lt :
    (m : ℕ) (t : Text) {n : ℕ} {s : Text} → scan_hex (pad_hex 16 9 m t) ≡ some (n, s) → n < limit
scan_hex-lt m t e =
    matched-lt (read_hex 9 (pad_hex 16 9 m t) 0 0) (read_hex-lt 9 (pad_hex 16 9 m t) 0 0)
      (sym (scan_hex-Starts (pad_hex 16 9 m t) (Starts-print_hex m t)) ∙ e)

-- What is read of the two numbers, where the first returns.
scan_second_lem :
    (id reqid : ℕ)
    → id < limit
    → scan_seqno (print_seqno id reqid)
      ≡ elim (scan_hex (print_hex reqid)) [ none ↦ none | some (r, _) ↦ some (id, r) ]
unfolding scan_seqno
scan_second_lem id reqid h = rw (print_seqno_lem, scan_hex-pad_hex id (print_hex reqid) h)

first-lt : (id reqid : ℕ) → scan_seqno (print_seqno id reqid) ≡ some (id, reqid) → id < limit
unfolding scan_seqno
first-lt id reqid e = elim (Option-cases (scan_hex (print_seqno id reqid))) [
  | inl failed ↦ ground arith
  | inr ((i, s), read) ↦
      ground (arith, print_seqno_lem id reqid, scan_hex-lt id (print_hex reqid) {n = i} {s = s})
]

second-lt :
    (id reqid : ℕ)
    → id < limit
    → scan_seqno (print_seqno id reqid) ≡ some (id, reqid)
    → reqid < limit
second-lt id reqid h e = elim (Option-cases (scan_hex (print_hex reqid))) [
  | inl failed ↦ ground (arith, scan_second_lem id reqid h)
  | inr ((i, s), read) ↦
      ground (
        arith,
        scan_second_lem id reqid h,
        print_hex_lem reqid,
        scan_hex-lt reqid [] {n = i} {s = s},
      )
]

-- djb_push reads back exactly the ids below 16 ^ 9 (2 ^ 36) of those that a DJB-SeqNo was written
-- for: both numbers return if they are below it, and otherwise something else is read.
pub scan_seqno-print_seqno :
    (id reqid : ℕ)
    → (scan_seqno (print_seqno id reqid) ≡ some (id, reqid)) ↔ ((id < limit) × (reqid < limit))
scan_seqno-print_seqno id reqid = (
  λ e. let h = first-lt id reqid e in (h, second-lt id reqid h e),
  λ h.
      scan_second_lem id reqid h.0
      ∙ ground (arith, print_hex_lem reqid, scan_hex-pad_hex reqid [] h.1),
)
