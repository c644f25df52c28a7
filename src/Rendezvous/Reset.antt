-- ===== src/Rendezvous/Reset.antt =====
-- rdv_reset and its parts (server/rendezvous.c).
use jumpbox.Base.{ℕ, Bool, true, false, Option, none, some, [], Text, txt}
use jumpbox.Reply.{djb_presult}
use jumpbox.Rendezvous.State.{Onion, Rdv, tell, touch, free_onion, unlink, rmdir}

-- Freeing the onion that a variable points to, unless it is NULL.
abbrev pub release : Option Onion → Rdv → Rdv
release none r = r
release (some o) r = free_onion o r

unfoldable pub rdv_onion_reset : Rdv → Rdv
rdv_onion_reset r = release r.l_current_onion (record r { l_password = []; l_current_onion = none })

abbrev pub reset_started : Bool → Rdv → Rdv
reset_started false r = r
reset_started true r = release r.l_pow_inner_onion (record r {
  l_pow_thread_quit = true;
  l_pow_inner_onion = none;
  l_pow_thread_started = false;
  l_pow_thread_finished = false;
  l_pow_thread_progress = 0;
})

unfoldable pub rdv_pow_reset : Rdv → Rdv
rdv_pow_reset r = reset_started r.l_pow_thread_started r

abbrev pub remove_captcha : Option Text → Rdv → Rdv
remove_captcha none r = r
remove_captcha (some path) r = touch (unlink path) (record r { l_captcha_image_path = none })

unfoldable pub rdv_captcha_reset : Rdv → Rdv
rdv_captcha_reset r = remove_captcha r.l_captcha_image_path r

abbrev pub remove_image : Option Text → Rdv → Rdv
remove_image none r = r
remove_image (some path) r =
    touch (rmdir r.l_current_image_dir)
      (touch (unlink path) (record r { l_current_image_path = none; l_current_image_dir = [] }))

unfoldable pub rdv_image_reset : Rdv → Rdv
rdv_image_reset r = remove_image r.l_current_image_path r

unfoldable pub rdv_reset : ℕ → Rdv → Rdv
unfolding rdv_onion_reset rdv_captcha_reset rdv_image_reset rdv_pow_reset
rdv_reset hcl r =
    tell (djb_presult hcl (txt "Reset OK"))
      (rdv_pow_reset (rdv_image_reset (rdv_captcha_reset (rdv_onion_reset r))))
