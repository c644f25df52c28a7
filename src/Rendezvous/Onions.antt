-- ===== src/Rendezvous/Onions.antt =====
-- The onions that the variables of server/rendezvous.c hold, that were freed and that were made,
-- counted before and after each operation.
use jumpbox.Base.{
  ℕ, suc, ◌+◌, ◌≡◌, refl, Bool, true, false, ◌&&◌, Option, none, some, List, Text, txt, arith, ltb,
  ◌==◌, if◌then◌else◌, if_both, count_if, Option-cases, inl, inr,
}
use jumpbox.Http.{Client, is_post}
use jumpbox.Reply.{djb_error}
use jumpbox.Jansson.{Jansson}
use jumpbox.Rendezvous.State.{Layer, Onion, Worker, begun, mining, Extracted, Rdv, World, tell}
use jumpbox.Rendezvous.Reset.{
  rdv_onion_reset, rdv_captcha_reset, rdv_image_reset, rdv_pow_reset, rdv_reset,
}
use jumpbox.Rendezvous.Request.{rdv_gen_request_aux, to_server, request_root, rdv_gen_request}
use jumpbox.Rendezvous.Image.{
  discard, keep_onion, decrypted, is_sound, path_of, image_body, rdv_make_image_response, rdv_image,
}
use jumpbox.Rendezvous.Pow.{take_inner, rdv_peel_pow, worker_step}

-- Whether a variable holds the onion with an id, as a number.
abbrev pub held : ℕ → Option Onion → ℕ
held a none = 0
held a (some o) = if o.id == a then 1 else 0

abbrev pub owned : ℕ → Rdv → ℕ
owned a r = held a r.l_current_onion + held a r.l_pow_inner_onion

abbrev pub frees : ℕ → Rdv → ℕ
frees a r = count_if (λ i. i == a) r.freed

abbrev pub made_yet : ℕ → Rdv → ℕ
made_yet a r = if ltb a r.made then 1 else 0

-- The onion with this id, before and after: `lost` times it was overwritten.
abbrev pub Tally : ℕ → ℕ → Rdv → Rdv → Type 0
Tally a lost r q =
    owned a q + frees a q + lost + made_yet a r ≡ owned a r + frees a r + made_yet a q

pub Tally-trans : (a m n : ℕ) (r q s : Rdv) → Tally a m r q → Tally a n q s → Tally a (m + n) r s
Tally-trans a m n r q s h k = omega arith

pub rdv_onion_reset-Tally : (a : ℕ) (r : Rdv) → Tally a 0 r (rdv_onion_reset r)
unfolding rdv_onion_reset
rdv_onion_reset-Tally a r = elim (Option-cases r.l_current_onion) [
  | inl e ↦ ground arith
  | inr (o, e) ↦ ground arith
]

pub rdv_captcha_reset-Tally : (a : ℕ) (r : Rdv) → Tally a 0 r (rdv_captcha_reset r)
unfolding rdv_captcha_reset
rdv_captcha_reset-Tally a r = elim (Option-cases r.l_captcha_image_path) [
  | inl e ↦ ground arith
  | inr (o, e) ↦ ground arith
]

pub rdv_image_reset-Tally : (a : ℕ) (r : Rdv) → Tally a 0 r (rdv_image_reset r)
unfolding rdv_image_reset
rdv_image_reset-Tally a r = elim (Option-cases r.l_current_image_path) [
  | inl e ↦ ground arith
  | inr (o, e) ↦ ground arith
]

pub rdv_pow_reset-Tally : (a : ℕ) (r : Rdv) → Tally a 0 r (rdv_pow_reset r)
unfolding rdv_pow_reset
rdv_pow_reset-Tally a r = elim (Option-cases r.l_pow_inner_onion) [
  | inl e ↦ ground arith
  | inr (o, e) ↦ ground arith
]

-- A reset frees what the variables held.
pub rdv_reset-Tally : (a hcl : ℕ) (r : Rdv) → Tally a 0 r (rdv_reset hcl r)
unfolding rdv_reset
rdv_reset-Tally a hcl r =
    let q = rdv_onion_reset r in
    let s = rdv_captcha_reset q in
    let t = rdv_image_reset s in
    omega (
      arith,
      rdv_onion_reset-Tally a r,
      rdv_captcha_reset-Tally a q,
      rdv_image_reset-Tally a s,
      rdv_pow_reset-Tally a t,
    )

pub rdv_gen_request_aux-Tally :
    (a : ℕ) (w : World) (hcl : ℕ) (server : Text) (secure : Bool) (r : Rdv)
    → Tally a 0 r (rdv_gen_request_aux w hcl server secure r)
unfolding rdv_gen_request_aux
rdv_gen_request_aux-Tally a w hcl server secure r = ground arith

pub to_server-Tally :
    (J : Jansson) (a : ℕ) (w : World) (hcl : ℕ) (server : Option Text) (secure : Bool) (r : Rdv)
    → Tally a 0 r (to_server J w hcl server secure r)
to_server-Tally J a w hcl none secure r = ground arith
to_server-Tally J a w hcl (some server) secure r = rdv_gen_request_aux-Tally a w hcl server secure r

request_root-Tally :
    (J : Jansson) (a : ℕ) (w : World) (hcl : ℕ) (root : Option J.Json) (r : Rdv)
    → Tally a 0 r (request_root J w hcl root r)
request_root-Tally J a w hcl none r = omega arith
request_root-Tally J a w hcl (some root) r =
    if_both (Tally a 0 r) (J.is_object root) (to_server-Tally J a w hcl _ _ r)
      (to_server-Tally J a w hcl none false r)

pub rdv_gen_request-Tally :
    (J : Jansson) (a : ℕ) (w : World) (hcl : ℕ) (c : Client) (r : Rdv)
    → Tally a 0 r (rdv_gen_request J w hcl c r)
unfolding rdv_gen_request
rdv_gen_request-Tally J a w hcl c r = elim (Option-cases c.readbody) [
  | inl e ↦ ground arith
  | inr (body, e) ↦ ground (arith, request_root-Tally J a w hcl (J.loads body) r)
]

-- The conditions under which rdv_image keeps an onion.
abbrev pub has_response : Option Text → Bool
has_response none = false
has_response (some t) = true

abbrev pub is_kept : World → Extracted → Option (ℕ × Layer) → Bool
is_kept w e none = false
is_kept w e (some (size, layer)) =
    is_sound w size layer
    && has_response (rdv_make_image_response w (path_of e.image_path) layer.kind)

abbrev pub keeps_body : World → Option Text → Rdv → Bool
keeps_body w none r = false
keeps_body w (some body) r =
    let e = w.extract_n_save r.l_password body in
    e.code == 0 && is_kept w e (w.pwd_decrypt r.l_password e.encrypted_onion)

abbrev pub keeps : World → Client → Rdv → Bool
keeps w c r = is_post c.method && keeps_body w c.readbody r

pub discard-Tally :
    (a : ℕ) (e : Extracted) (r : Rdv)
    → (owned a (discard e r) ≡ owned a r)
      × (frees a (discard e r) ≡ frees a r)
      × ((discard e r).made ≡ r.made)
discard-Tally a e r = elim (Option-cases e.image_path) [
  | inl h ↦ ground arith
  | inr (p, h) ↦ ground arith
]

pub keep_onion-Tally :
    (a hcl : ℕ) (e : Extracted) (o : Onion) (response : Option Text) (r : Rdv)
    → let q = keep_onion hcl e o response r in
      (owned a q + frees a q + (if has_response response then held a r.l_current_onion else 0)
        ≡ owned a r + frees a r + held a (some o))
      × (q.made ≡ r.made)
keep_onion-Tally a hcl e o none r = ground (arith, discard-Tally a e r)
keep_onion-Tally a hcl e o (some response) r = ground arith

pub decrypted-Tally :
    (a : ℕ) (w : World) (hcl : ℕ) (e : Extracted) (d : Option (ℕ × Layer)) (r : Rdv)
    → Tally a (if is_kept w e d then held a r.l_current_onion else 0) r (decrypted w hcl e d r)
decrypted-Tally a w hcl e none r = ground (arith, discard-Tally a e r)
decrypted-Tally a w hcl e (some (size, layer)) r =
    let o : Onion = record { id = r.made; layer = layer } in
    let q = record r { made = suc r.made } in
    let response = rdv_make_image_response w (path_of e.image_path) layer.kind in
    ground (arith, discard-Tally a e q, keep_onion-Tally a hcl e o response q)

pub image_body-Tally :
    (a : ℕ) (w : World) (hcl : ℕ) (body : Text) (r : Rdv)
    → Tally a
        (if keeps_body w (some body) r then held a r.l_current_onion else 0)
        r
        (image_body w hcl body r)
image_body-Tally a w hcl body r =
    let e = w.extract_n_save r.l_password body in
    ground (
      arith,
      discard-Tally a e (tell (djb_error hcl 400 (txt "extract_n_save() failure, see log)")) r),
      decrypted-Tally a w hcl e (w.pwd_decrypt r.l_password e.encrypted_onion) r,
    )

-- rdv_image loses the onion that was current, where it keeps a new one.
pub rdv_image-Tally :
    (a : ℕ) (w : World) (hcl : ℕ) (c : Client) (r : Rdv)
    → Tally a (if keeps w c r then held a r.l_current_onion else 0) r (rdv_image w hcl c r)
unfolding rdv_image
rdv_image-Tally a w hcl c r = elim (Option-cases c.readbody) [
  | inl e ↦ ground arith
  | inr (body, e) ↦ ground (arith, image_body-Tally a w hcl body r)
]

pub take_inner-Tally :
    (a : ℕ) (w : World) (o : Onion) (inner : Option Onion) (r : Rdv)
    → r.l_current_onion ≡ some o
    → r.l_pow_inner_onion ≡ inner
    → Tally a 0 r (take_inner w o inner r).0
unfolding rdv_pow_reset
take_inner-Tally a w o none r h k = ground arith
take_inner-Tally a w o (some inner) r h k = ground arith

pub rdv_peel_pow-Tally :
    (a : ℕ) (w : World) (o : Onion) (r : Rdv)
    → r.l_current_onion ≡ some o
    → Tally a 0 r (rdv_peel_pow w o r).0
unfolding rdv_peel_pow
rdv_peel_pow-Tally a w o r h = ground (arith, take_inner-Tally a w o r.l_pow_inner_onion r h refl)

-- A worker loses the onion that another has left, when it ends.
abbrev pub overwrites : Option Worker → Option Onion → Option Onion
overwrites (some (mining o)) inner = inner
overwrites _ inner = none

pub worker-Tally :
    (a : ℕ) (solve : Layer → Option Layer) (found : Option Worker) (rest : List Worker) (r : Rdv)
    → Tally a (held a (overwrites found r.l_pow_inner_onion)) r (worker_step solve (found, rest) r)
worker-Tally a solve none rest r = omega arith
worker-Tally a solve (some begun) rest r = elim (Option-cases r.l_current_onion) [
  | inl e ↦ ground arith
  | inr (o, e) ↦ ground arith
]
worker-Tally a solve (some (mining o)) rest r = elim (Option-cases (solve o.layer)) [
  | inl e ↦ ground arith
  | inr (layer, e) ↦ ground arith
]
