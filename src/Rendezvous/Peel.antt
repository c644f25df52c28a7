-- ===== src/Rendezvous/Peel.antt =====
-- rdv_peel and the layers but the proof of work (server/rendezvous.c).
use jumpbox.Base.{ℕ, suc, Option, none, some, [], ◌++◌, Text, txt, ◌==◌, if◌then◌else◌}
use jumpbox.Http.{Client, is_post}
use jumpbox.Jansson.{Jansson}
use jumpbox.Reply.{djb_error, djb_presult}
use jumpbox.Acs.State.{Acs}
use jumpbox.Acs.State
use jumpbox.Acs.Net.{acs_set_net}
use jumpbox.Rendezvous.State.{
  Layer, Onion, Rdv, World, base, pow, captcha, signed, tell, free_onion, aprintf,
}
use jumpbox.Rendezvous.Request.{with_body}
use jumpbox.Rendezvous.Pow.{Peeled, rdv_make_peel_response, rdv_peel_pow}

-- What the library peeled replaces the current onion, which is freed.
abbrev pub replace : Onion → Layer → Rdv → Rdv
replace o layer r = record (free_onion o r) {
  l_current_onion = some (record { id = r.made; layer = layer });
  made = suc r.made;
}

abbrev pub no_captcha : Peeled → Peeled
no_captcha (r, none) = (record r { l_captcha_image_path = none }, none)
no_captcha (r, some response) = (r, some response)

abbrev pub show_captcha : World → Onion → Option Text → Rdv → Peeled
show_captcha w o none r = (r, none)
show_captcha w o (some url) r =
    (r, rdv_make_peel_response w o.layer.kind url (txt "Here is your captcha image!"))

abbrev pub store_captcha : World → Onion → Option Text → Rdv → Peeled
store_captcha w o none r = (record r { l_captcha_image_path = none }, none)
store_captcha w o (some path) r =
    if w.bytes2file_ok path o.layer.puzzle
    then no_captcha (
        show_captcha w o (aprintf w (txt "/rendezvous/file" ++ path))
          (record r { l_captcha_image_path = some path }))
    else (record r { l_captcha_image_path = none }, none)

unfoldable pub rdv_peel_captcha_no_image_path : World → Onion → Rdv → Peeled
rdv_peel_captcha_no_image_path w o r =
    store_captcha w o (aprintf w (r.l_current_image_dir ++ (w.path_separator ++ txt "captcha.png")))
      r

-- The kind in the response is that of the onion that is current then.
abbrev pub says : World → ℕ → Text → Rdv → Peeled
says w kind status r = (r, rdv_make_peel_response w kind [] status)

abbrev pub solved : World → Onion → Option Layer → Rdv → Peeled
solved w o none r = says w o.layer.kind (txt "Nope, try again?") r
solved w o (some layer) r =
    says w layer.kind (txt "Excellent, you solved the captcha") (replace o layer r)

abbrev pub peeled_signed : World → Onion → Option Layer → Rdv → Peeled
peeled_signed w o none r = says w o.layer.kind (txt "Peeling it went wrong, very odd.") r
peeled_signed w o (some layer) r =
    says w layer.kind (txt "The server returned an onion whose signature we VERIFIED!")
      (replace o layer r)

abbrev pub with_key : World → Onion → Option Text → Rdv → Peeled
with_key w o none r =
    says w o.layer.kind
      (txt
        "The server needs to know the DEFIANCE_PUBLIC_KEY_PATH, so  that the signature can be VERIFIED!")
      r
with_key w o (some path) r =
    if w.fopen_ok path
    then (if w.verify path o.layer
        then peeled_signed w o (w.peel_signed o.layer) r
        else says w o.layer.kind
            (txt "The server returned an onion whose signature we COULD NOT verify -- try again?")
            r)
    else says w o.layer.kind
        (txt
          "The server can't open the DEFIANCE_PUBLIC_KEY_PATH, so  that the signature can be VERIFIED!")
        r

unfoldable pub rdv_peel_signed : World → Onion → Rdv → Peeled
rdv_peel_signed w o r = with_key w o w.public_key_path r

module _ (J : Jansson) where
  abbrev pub answered : World → Onion → Option J.Json → Rdv → Peeled
  answered w o none r = says w o.layer.kind (txt "Answer not found in JSON") r
  answered w o (some v) r =
      if J.is_string v
      then solved w o (w.peel_captcha (J.string_value v) o.layer) r
      else says w o.layer.kind (txt "JSON Answer field wasn't of the right type") r

  unfoldable pub rdv_peel_captcha_with_image_path : World → Onion → J.Json → Rdv → Peeled
  rdv_peel_captcha_with_image_path w o root r = answered w o (J.object_get root (txt "action")) r

  abbrev pub captcha_at : World → Onion → J.Json → Option Text → Rdv → Peeled
  captcha_at w o root none r = rdv_peel_captcha_no_image_path w o r
  captcha_at w o root (some path) r = rdv_peel_captcha_with_image_path w o root r

  unfoldable pub rdv_peel_captcha : World → Onion → J.Json → Rdv → Peeled
  unfolding rdv_peel_captcha_no_image_path rdv_peel_captcha_with_image_path
  rdv_peel_captcha w o root r = captcha_at w o root r.l_captcha_image_path r

  module _ (aw : State.World) where
    -- The result of acs_set_net is not looked at.
    abbrev pub pass_net : World → Onion → Option J.Json → Acs J.Json → Acs J.Json × Option Text
    pass_net w o none a =
        (a, rdv_make_peel_response w o.layer.kind (txt "Sorry your nep did not parse as JSON") [])
    pass_net w o (some root) a = (
      (acs_set_net J aw (some root) a).0,
      rdv_make_peel_response w o.layer.kind (txt "NET passed to ACS") (txt "Complete"),
    )

    unfoldable pub rdv_peel_base : World → Onion → Acs J.Json → Acs J.Json × Option Text
    rdv_peel_base w o a = pass_net w o (J.loads o.layer.text) a

    abbrev pub Both : Type 0
    Both = Acs J.Json × Rdv

    abbrev pub peel_answer : ℕ → Option Text → Rdv → Rdv
    peel_answer hcl none r = tell (djb_error hcl 400 (txt "Peeling failed")) r
    peel_answer hcl (some response) r = tell (djb_presult hcl response) r

    abbrev pub peeled_to : ℕ → Peeled → Rdv
    peeled_to hcl (r, response) = peel_answer hcl response r

    -- The switch over the kind.
    abbrev pub by_kind : World → ℕ → J.Json → Onion → Acs J.Json → Rdv → Both
    by_kind w hcl root o a r =
        if o.layer.kind == base
        then (let (b, response) = rdv_peel_base w o a in (b, peel_answer hcl response r))
        else (if o.layer.kind == pow
            then (a, peeled_to hcl (rdv_peel_pow w o r))
            else (if o.layer.kind == captcha
                then (a, peeled_to hcl (rdv_peel_captcha w o root r))
                else (if o.layer.kind == signed
                    then (a, peeled_to hcl (rdv_peel_signed w o r))
                    else (
                      a,
                      peel_answer hcl none
                          (tell (djb_error hcl 400 (txt "Onion method not implemented yet")) r),
                    ))))

    abbrev pub peel_current : World → ℕ → J.Json → Option Onion → Acs J.Json → Rdv → Both
    peel_current w hcl root none a r = (a, tell (djb_error hcl 400 (txt "Currently no onion")) r)
    peel_current w hcl root (some o) a r =
        if o.layer.is_onion
        then by_kind w hcl root o a r
        else (a, tell (djb_error hcl 400 (txt "Onion is not an onion")) r)

    abbrev pub peel_root : World → ℕ → Option J.Json → Acs J.Json → Rdv → Both
    peel_root w hcl none a r = (a, tell (djb_error hcl 400 (txt "Invalid JSON")) r)
    peel_root w hcl (some root) a r =
        if J.is_object root
        then peel_current w hcl root r.l_current_onion a r
        else (a, tell (djb_error hcl 400 (txt "No Object in JSON")) r)

    abbrev pub peel_body : World → ℕ → Client → Option Text → Acs J.Json → Rdv → Both
    peel_body w hcl c none a r = (a, with_body hcl (txt "peel") c none (λ body q. q) r)
    peel_body w hcl c (some body) a r = peel_root w hcl (J.loads body) a r

    unfoldable pub rdv_peel : World → ℕ → Client → Acs J.Json → Rdv → Both
    unfolding rdv_peel_base rdv_peel_pow rdv_peel_captcha rdv_peel_signed
    rdv_peel w hcl c a r =
        if is_post c.method
        then peel_body w hcl c c.readbody a r
        else (a, tell (djb_error hcl 400 (txt "peel requires a POST")) r)
