-- ===== src/Rendezvous/Ownership.antt =====
-- Every order of requests to server/rendezvous.c and of the steps of its workers, and what becomes
-- of the onions in it.
use jumpbox.Base.{
  ℕ, ◌≡◌, Bool, not, ◌&&◌, Option, none, some, ◌++◌, Text, txt, arith, drop, ◌==◌, if◌then◌else◌,
  if_both, strcaseeq, Option-cases, inl, inr,
}
use jumpbox.Http.{Client}
use jumpbox.Jansson.{Jansson}
use jumpbox.Acs.State.{Acs}
use jumpbox.Acs.State
use jumpbox.Rendezvous.State.{Layer, Onion, Rdv, World, base, pow, captcha, signed, aprintf}
use jumpbox.Rendezvous.Pow.{Peeled}
use jumpbox.Rendezvous.Peel.{
  no_captcha, show_captcha, store_captcha, rdv_peel_captcha_no_image_path, solved, peeled_signed,
  with_key, rdv_peel_signed, answered, rdv_peel_captcha_with_image_path, captcha_at,
  rdv_peel_captcha, rdv_peel_base, Both, peel_answer, by_kind, peel_root, rdv_peel,
}
use jumpbox.Rendezvous.Handle.{rdv_file, rdv_handle}
use jumpbox.Rendezvous.Onions.{
  held, Tally, keeps, rdv_reset-Tally, rdv_gen_request-Tally, rdv_image-Tally, rdv_peel_pow-Tally,
}

no_captcha-Tally : (a : ℕ) (r : Rdv) (p : Peeled) → Tally a 0 r p.0 → Tally a 0 r (no_captcha p).0
no_captcha-Tally a r (q, none) h = h
no_captcha-Tally a r (q, some response) h = h

show_captcha-Tally :
    (a : ℕ) (w : World) (o : Onion) (url : Option Text) (r q : Rdv)
    → Tally a 0 r q
    → Tally a 0 r (show_captcha w o url q).0
show_captcha-Tally a w o none r q h = h
show_captcha-Tally a w o (some url) r q h = h

store_captcha-Tally :
    (a : ℕ) (w : World) (o : Onion) (path : Option Text) (r : Rdv)
    → Tally a 0 r (store_captcha w o path r).0
store_captcha-Tally a w o none r = omega arith
store_captcha-Tally a w o (some path) r =
    let q = record r { l_captcha_image_path = some path } in
    let url = aprintf w (txt "/rendezvous/file" ++ path) in
    if_both (λ (p : Peeled). Tally a 0 r p.0) (w.bytes2file_ok path o.layer.puzzle)
      (no_captcha-Tally a r (show_captcha w o url q)
        (show_captcha-Tally a w o url r q (omega arith)))
      (omega arith)

solved-Tally :
    (a : ℕ) (w : World) (o : Onion) (layer : Option Layer) (r : Rdv)
    → r.l_current_onion ≡ some o
    → Tally a 0 r (solved w o layer r).0
solved-Tally a w o none r h = omega arith
solved-Tally a w o (some layer) r h = ground arith

peeled_signed-Tally :
    (a : ℕ) (w : World) (o : Onion) (layer : Option Layer) (r : Rdv)
    → r.l_current_onion ≡ some o
    → Tally a 0 r (peeled_signed w o layer r).0
peeled_signed-Tally a w o none r h = omega arith
peeled_signed-Tally a w o (some layer) r h = ground arith

with_key-Tally :
    (a : ℕ) (w : World) (o : Onion) (path : Option Text) (r : Rdv)
    → r.l_current_onion ≡ some o
    → Tally a 0 r (with_key w o path r).0
with_key-Tally a w o none r h = omega arith
with_key-Tally a w o (some path) r h =
    ground (arith, peeled_signed-Tally a w o (w.peel_signed o.layer) r h)

rdv_file-Tally :
    (a : ℕ) (w : World) (hcl : ℕ) (file : Text) (r : Rdv) → Tally a 0 r (rdv_file w hcl file r)
unfolding rdv_file
rdv_file-Tally a w hcl file r = ground arith

module _ (J : Jansson) where
  answered-Tally :
      (a : ℕ) (w : World) (o : Onion) (v : Option J.Json) (r : Rdv)
      → r.l_current_onion ≡ some o
      → Tally a 0 r (answered J w o v r).0
  answered-Tally a w o none r h = omega arith
  answered-Tally a w o (some v) r h =
      ground (arith, solved-Tally a w o (w.peel_captcha (J.string_value v) o.layer) r h)

  captcha_at-Tally :
      (a : ℕ) (w : World) (o : Onion) (root : J.Json) (path : Option Text) (r : Rdv)
      → r.l_current_onion ≡ some o
      → Tally a 0 r (captcha_at J w o root path r).0
  unfolding rdv_peel_captcha_no_image_path rdv_peel_captcha_with_image_path
  captcha_at-Tally a w o root none r h = store_captcha-Tally a w o _ r
  captcha_at-Tally a w o root (some path) r h = answered-Tally a w o _ r h

  module _ (aw : State.World) where
    peel_answer-Tally :
        (a hcl : ℕ) (response : Option Text) (r q : Rdv)
        → Tally a 0 r q
        → Tally a 0 r (peel_answer J aw hcl response q)
    peel_answer-Tally a hcl none r q h = h
    peel_answer-Tally a hcl (some response) r q h = h

    abbrev BothTally : ℕ → Rdv → Both J aw → Type 0
    BothTally a r b = Tally a 0 r b.1

    by_kind-Tally :
        (a : ℕ) (w : World) (hcl : ℕ) (root : J.Json) (o : Onion) (acs : Acs J.Json) (r : Rdv)
        → r.l_current_onion ≡ some o
        → Tally a 0 r (by_kind J aw w hcl root o acs r).1
    unfolding rdv_peel_captcha rdv_peel_signed
    by_kind-Tally a w hcl root o acs r h =
        let both = BothTally a r in
        if_both both (o.layer.kind == base)
          (peel_answer-Tally a hcl (rdv_peel_base J aw w o acs).1 r r (omega arith))
          (if_both both (o.layer.kind == pow)
            (peel_answer-Tally a hcl _ r _ (rdv_peel_pow-Tally a w o r h))
            (if_both both (o.layer.kind == captcha)
              (peel_answer-Tally a hcl _ r _
                (captcha_at-Tally a w o root r.l_captcha_image_path r h))
              (if_both both (o.layer.kind == signed)
                (peel_answer-Tally a hcl _ r _ (with_key-Tally a w o w.public_key_path r h))
                (omega arith))))

    peel_root-Tally :
        (a : ℕ) (w : World) (hcl : ℕ) (root : Option J.Json) (acs : Acs J.Json) (r : Rdv)
        → Tally a 0 r (peel_root J aw w hcl root acs r).1
    peel_root-Tally a w hcl none acs r = omega arith
    peel_root-Tally a w hcl (some root) acs r = elim (Option-cases r.l_current_onion) [
      | inl e ↦ ground arith
      | inr (o, e) ↦ ground (arith, by_kind-Tally a w hcl root o acs r e)
    ]

    rdv_peel-Tally :
        (a : ℕ) (w : World) (hcl : ℕ) (c : Client) (acs : Acs J.Json) (r : Rdv)
        → Tally a 0 r (rdv_peel J aw w hcl c acs r).1
    unfolding rdv_peel
    rdv_peel-Tally a w hcl c acs r = elim (Option-cases c.readbody) [
      | inl e ↦ ground arith
      | inr (body, e) ↦ ground (arith, peel_root-Tally a w hcl (J.loads body) acs r)
    ]

    -- The request that makes rdv_handle call rdv_image.
    abbrev pub is_image : Client → Bool
    is_image c =
        let query = drop 12 c.uri in
        strcaseeq query (txt "image")
        && (not (strcaseeq query (txt "reset")) && not (strcaseeq query (txt "gen_request")))

    abbrev pub lost_by : ℕ → World → Client → Rdv → ℕ
    lost_by a w c r = if is_image c && keeps w c r then held a r.l_current_onion else 0

    pub rdv_handle-Tally :
        (a : ℕ) (w : World) (hcl : ℕ) (c : Client) (acs : Acs J.Json) (r : Rdv)
        → Tally a (lost_by a w c r) r (rdv_handle J aw w hcl c acs r).1
    unfolding rdv_handle
    rdv_handle-Tally a w hcl c acs r = ground (
      arith,
      rdv_reset-Tally a hcl r,
      rdv_gen_request-Tally J a w hcl c r,
      rdv_image-Tally a w hcl c r,
      rdv_peel-Tally a w hcl c acs r,
      rdv_file-Tally a w hcl (drop 4 (drop 12 c.uri)) r,
    )
