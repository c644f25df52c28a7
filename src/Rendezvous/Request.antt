-- ===== src/Rendezvous/Request.antt =====
-- rdv_gen_request: a request as a URL (server/rendezvous.c).
use jumpbox.Base.{ℕ, Bool, false, Option, none, some, List, ◌++◌, Text, txt, ◌==◌, if◌then◌else◌}
use jumpbox.Http.{Client, Event, is_post}
use jumpbox.Decimal.{print_decimal}
use jumpbox.Jansson.{Jansson, passes}
use jumpbox.Reply.{djb_error, djb_presult}
use jumpbox.Rendezvous.State.{Rdv, World, tell, aprintf}

unfoldable pub rdv_randompath : World → Option Text
rdv_randompath w =
    aprintf w (txt "photos/26907150@N08/" ++ (print_decimal w.random ++ txt "/lightbox"))

abbrev pub url_answer : ℕ → World → ℕ × Text → List Event
url_answer hcl w (code, request) =
    if code == 0 then djb_presult hcl request else djb_error hcl 400 (w.strerror code)

unfoldable pub rdv_gen_request_aux : World → ℕ → Text → Bool → Rdv → Rdv
unfolding rdv_randompath
rdv_gen_request_aux w hcl server secure r =
    if w.params_code == 0
    then tell (url_answer hcl w (w.request_url secure w.random_password server (rdv_randompath w)))
        (record r { l_password = w.random_password })
    else tell (djb_error hcl 400 (w.strerror w.params_code)) r

-- httpsrv_readbody_alloc is called where there is no body yet; its result is only logged.
abbrev pub with_body : ℕ → Text → Client → Option Text → (Text → Rdv → Rdv) → Rdv → Rdv
with_body hcl what c none f r =
    if c.content_length == 0 then tell (djb_error hcl 400 (what ++ txt " requires length")) r else r
with_body hcl what c (some body) f r = f body r

module _ (J : Jansson) where
  -- The member "server", if it is a string.
  abbrev pub server_of : Option J.Json → Option Text
  server_of none = none
  server_of (some v) = if J.is_string v then some (J.string_value v) else none

  abbrev pub to_server : World → ℕ → Option Text → Bool → Rdv → Rdv
  to_server w hcl none secure r = tell (djb_error hcl 400 (txt "POST data conundrum")) r
  to_server w hcl (some server) secure r = rdv_gen_request_aux w hcl server secure r

  -- A body that is not JSON gets no answer.
  abbrev pub request_root : World → ℕ → Option J.Json → Rdv → Rdv
  request_root w hcl none r = r
  request_root w hcl (some root) r =
      if J.is_object root
      then to_server w hcl (server_of (J.object_get root (txt "server")))
          (passes J J.is_true (J.object_get root (txt "secure"))) r
      else to_server w hcl none false r

  unfoldable pub rdv_gen_request : World → ℕ → Client → Rdv → Rdv
  unfolding rdv_gen_request_aux
  rdv_gen_request w hcl c r =
      if is_post c.method
      then with_body hcl (txt "gen_request") c c.readbody
          (λ body. request_root w hcl (J.loads body)) r
      else tell (djb_error hcl 400 (txt "gen_request requires a POST")) r
