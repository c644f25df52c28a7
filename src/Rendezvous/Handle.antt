-- ===== src/Rendezvous/Handle.antt =====
-- rdv_file and rdv_handle (server/rendezvous.c).
use jumpbox.Base.{ℕ, [], ◌∷◌, Text, txt, drop, length, strcaseeq, strncaseeq, strneq, if◌then◌else◌}
use jumpbox.Http.{Client, sendfile, expire, short, done}
use jumpbox.Jansson.{Jansson}
use jumpbox.Reply.{djb_error}
use jumpbox.Acs.State.{Acs}
use jumpbox.Acs.State
use jumpbox.Rendezvous.State.{Rdv, World, tell}
use jumpbox.Rendezvous.Reset.{rdv_reset}
use jumpbox.Rendezvous.Request.{rdv_gen_request}
use jumpbox.Rendezvous.Image.{rdv_image}
use jumpbox.Rendezvous.Peel.{rdv_peel, Both}

abbrev pub file_prefix : Text
file_prefix = txt "/tmp/jpeg_steg_embed"

unfoldable pub rdv_file : World → ℕ → Text → Rdv → Rdv
rdv_file w hcl file r = tell (done hcl ∷ []) (
    if strneq file file_prefix (length file_prefix)
    then tell (sendfile hcl file ∷ expire hcl short ∷ []) r
    else tell (let (code, text) = w.forbidden in djb_error hcl code text) r)

module _ (J : Jansson) (aw : State.World) where
  unfoldable pub rdv_handle : World → ℕ → Client → Acs J.Json → Rdv → Both J aw
  unfolding rdv_reset rdv_gen_request rdv_image rdv_peel rdv_file
  rdv_handle w hcl c a r =
      let query = drop 12 c.uri in
      if strcaseeq query (txt "reset")
      then (a, rdv_reset hcl r)
      else (if strcaseeq query (txt "gen_request")
          then (a, rdv_gen_request J w hcl c r)
          else (if strcaseeq query (txt "image")
              then (a, rdv_image w hcl c r)
              else (if strcaseeq query (txt "peel")
                  then rdv_peel J aw w hcl c a r
                  else (if strncaseeq query (txt "file/") 5
                      then (a, rdv_file w hcl (drop 4 query) r)
                      else (
                        a,
                        tell (djb_error hcl 400 (txt "No such DJB API request (Rendezvous)")) r,
                      )))))
