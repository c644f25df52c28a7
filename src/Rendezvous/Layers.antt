-- ===== src/Rendezvous/Layers.antt =====
-- What a peel does to the layers of the onion (server/rendezvous.c).
use jumpbox.Base.{
  ℕ, ◌≡◌, refl, ◌∙◌, Bool, true, false, ◌&&◌, Option, none, some, Text, txt, arith, ◌==◌, if_both,
  Option-cases, inl, inr,
}
use jumpbox.Http.{Client}
use jumpbox.Jansson.{Jansson}
use jumpbox.Acs.State.{Acs}
use jumpbox.Acs.State
use jumpbox.Rendezvous.State.{Layer, Onion, Rdv, World, base, pow, captcha, signed}
use jumpbox.Rendezvous.Reset.{rdv_pow_reset}
use jumpbox.Rendezvous.Pow.{rdv_peel_pow}
use jumpbox.Rendezvous.Peel.{
  with_key, rdv_peel_signed, answered, captcha_at, rdv_peel_captcha,
  rdv_peel_captcha_with_image_path, Both, peel_answer, by_kind, rdv_peel,
}

-- Two peels at a layer with a proof of work that is not started, but finished, with the onion that
-- an old worker has left: the first starts a new worker, if a thread can be started, and the
-- second takes the old worker's onion for the current one, without a step of the new worker.
pub rdv_peel_pow-stale :
    (w v : World) (o stale : Onion) (r : Rdv)
    → r.l_pow_thread_started ≡ false
    → r.l_pow_thread_finished ≡ true
    → r.l_pow_inner_onion ≡ some stale
    → w.thread_add_ok ≡ true
    → let q = (rdv_peel_pow w o r).0 in
      (q.l_pow_thread_started ≡ true) × ((rdv_peel_pow v o q).0.l_current_onion ≡ some stale)
unfolding rdv_peel_pow rdv_pow_reset
rdv_peel_pow-stale w v o stale r s f i t = ground arith

-- Whether the signature of a layer can be and is verified.
abbrev pub verifies : World → Layer → Option Text → Bool
verifies w layer none = false
verifies w layer (some path) = w.fopen_ok path && w.verify path layer

module _ (J : Jansson) (aw : State.World) (w : World) where
  peel_answer-onion :
      (hcl : ℕ) (response : Option Text) (r : Rdv)
      → (peel_answer J aw hcl response r).l_current_onion ≡ r.l_current_onion
  peel_answer-onion hcl none r = refl
  peel_answer-onion hcl (some response) r = refl

  with_key-onion :
      (o : Onion) (path : Option Text) (r : Rdv)
      → verifies w o.layer path ≡ false
      → (with_key w o path r).0.l_current_onion ≡ r.l_current_onion
  with_key-onion o none r h = refl
  with_key-onion o (some path) r h = ground (arith, Option-cases (w.peel_signed o.layer))

  -- A signed layer is peeled only if its signature was verified: if the key is not there, cannot
  -- be read or does not fit, a peel, whatever its body, leaves the current onion as it was.
  pub rdv_peel-unverified :
      (hcl : ℕ) (c : Client) (a : Acs J.Json) (o : Onion) (r : Rdv)
      → r.l_current_onion ≡ some o
      → o.layer.kind ≡ signed
      → verifies w o.layer w.public_key_path ≡ false
      → (rdv_peel J aw w hcl c a r).1.l_current_onion ≡ some o
  unfolding rdv_peel rdv_peel_signed
  rdv_peel-unverified hcl c a o r h k v = elim (Option-cases c.readbody) [
    | inl e ↦ ground arith
    | inr (body, e) ↦ elim (Option-cases (J.loads body)) [
      | inl f ↦ ground arith
      | inr (root, f) ↦
          let p = with_key w o w.public_key_path r in
          ground (arith, with_key-onion o w.public_key_path r v, peel_answer-onion hcl p.1 p.0)
    ]
  ]

  peel_answer-captcha :
      (hcl : ℕ) (response : Option Text) (r : Rdv)
      → (peel_answer J aw hcl response r).l_captcha_image_path ≡ r.l_captcha_image_path
  peel_answer-captcha hcl none r = refl
  peel_answer-captcha hcl (some response) r = refl

  rdv_peel_pow-captcha :
      (o : Onion) (r : Rdv) → (rdv_peel_pow w o r).0.l_captcha_image_path ≡ r.l_captcha_image_path
  unfolding rdv_peel_pow rdv_pow_reset
  rdv_peel_pow-captcha o r = ground (arith, Option-cases r.l_pow_inner_onion)

  rdv_peel_signed-captcha :
      (o : Onion) (r : Rdv)
      → (rdv_peel_signed w o r).0.l_captcha_image_path ≡ r.l_captcha_image_path
  unfolding rdv_peel_signed
  rdv_peel_signed-captcha o r =
      ground (arith, Option-cases w.public_key_path, Option-cases (w.peel_signed o.layer))

  answered-captcha :
      (o : Onion) (v : Option J.Json) (r : Rdv)
      → (answered J w o v r).0.l_captcha_image_path ≡ r.l_captcha_image_path
  answered-captcha o none r = refl
  answered-captcha o (some v) r =
      ground (arith, Option-cases (w.peel_captcha (J.string_value v) o.layer))

  captcha_at-captcha :
      (o : Onion) (root : J.Json) (shown : Option Text) (r : Rdv) (path : Text)
      → shown ≡ some path
      → r.l_captcha_image_path ≡ some path
      → (captcha_at J w o root shown r).0.l_captcha_image_path ≡ some path
  unfolding rdv_peel_captcha_with_image_path
  captcha_at-captcha o root none r path e h = cc
  captcha_at-captcha o root (some q) r path e h =
      answered-captcha o (J.object_get root (txt "action")) r ∙ h

  abbrev Shows : Text → Both J aw → Type 0
  Shows path b = b.1.l_captcha_image_path ≡ some path

  by_kind-captcha :
      (hcl : ℕ) (root : J.Json) (o : Onion) (a : Acs J.Json) (r : Rdv) (path : Text)
      → r.l_captcha_image_path ≡ some path
      → Shows path (by_kind J aw w hcl root o a r)
  unfolding rdv_peel_captcha
  by_kind-captcha hcl root o a r path h =
      let shows = Shows path in
      if_both shows (o.layer.kind == base) (peel_answer-captcha hcl _ r ∙ h) (
        if_both shows (o.layer.kind == pow)
          (peel_answer-captcha hcl _ _ ∙ (rdv_peel_pow-captcha o r ∙ h))
          (if_both shows (o.layer.kind == captcha)
            (peel_answer-captcha hcl _ _ ∙ captcha_at-captcha o root _ r path h h)
            (if_both shows (o.layer.kind == signed)
              (peel_answer-captcha hcl _ _ ∙ (rdv_peel_signed-captcha o r ∙ h)) h)))

  -- A captcha that was shown stays the captcha: once l_captcha_image_path is set, no peel changes
  -- it, whatever its body and the layer, so not even one that solves the captcha.
  pub rdv_peel-captcha_path :
      (hcl : ℕ) (c : Client) (a : Acs J.Json) (r : Rdv) {path : Text}
      → r.l_captcha_image_path ≡ some path
      → (rdv_peel J aw w hcl c a r).1.l_captcha_image_path ≡ some path
  unfolding rdv_peel
  rdv_peel-captcha_path hcl c a r {path} h = elim (Option-cases c.readbody) [
    | inl e ↦ ground arith
    | inr (body, e) ↦ elim (Option-cases (J.loads body)) [
      | inl f ↦ ground arith
      | inr (root, f) ↦ elim (Option-cases r.l_current_onion) [
        | inl g ↦ ground arith
        | inr (o, g) ↦ ground (arith, by_kind-captcha hcl root o a r path h)
      ]
    ]
  ]
