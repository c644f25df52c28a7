-- ===== src/Proxy/Push.antt =====
-- djb_push: the answer to a request that was pulled (server/djb.c).
use jumpbox.Base.{
  ℕ, Bool, true, false, Option, none, some, List, [], ◌∷◌, ◌++◌, Text, txt, is_empty, ◌==◌,
  if◌then◌else◌,
}
use jumpbox.Http.{
  set_cookie_field, Headers, Callback, html, answer_ok, answer, header, headers, put, done, forward,
  handling_setup, free, abort,
}
use jumpbox.SeqNo.{scan_seqno}
use jumpbox.Atoi.{atoi}
use jumpbox.Proxy.Queues.{Req, Proxy, say, write, djb_error, find_req}

abbrev pub not_found : ℕ → Option Req × List Req → Proxy → Proxy × Option Req
not_found hcl (none, out) p = (djb_error hcl 404 (txt "No such request outstanding") p, none)
not_found hcl (some r, out) p = (record p { proxy_out = out }, some r)

abbrev pub look_up : ℕ → Option (ℕ × ℕ) → Proxy → Proxy × Option Req
look_up hcl none p = (djb_error hcl 504 (txt "Missing or malformed DJB-SeqNo") p, none)
look_up hcl (some (id, reqid)) p = not_found hcl (find_req p.client id reqid p.proxy_out) p

-- djb_find_req_dh on lst_proxy_out.
unfoldable pub djb_find_req_dh : ℕ → Headers → Proxy → Proxy × Option Req
unfolding find_req
djb_find_req_dh hcl dh p =
    if is_empty dh.httpcode
    then (djb_error hcl 504 (txt "Missing DJB-HTTPCode") p, none)
    else (if is_empty dh.httptext
        then (djb_error hcl 504 (txt "Missing DJB-HTTPText") p, none)
        else look_up hcl (scan_seqno dh.seqno) p)

abbrev pub reply : ℕ → Text → Proxy → Proxy
reply hcl text p = say (done hcl) (say (put hcl text) (say (answer_ok hcl html) p))

abbrev set_cookie : ℕ → Text → Proxy → Proxy
set_cookie to text p = if is_empty text then p else say (header to set_cookie_field text) p

-- connset_handling_setup puts the connection on the handling list.
abbrev force_handling : ℕ → Proxy → Proxy
force_handling to p =
    if (p.client to).handling
    then p
    else write to (record (p.client to) { handling = true }) (say (handling_setup to) p)

-- The answer's head goes to the client of the request.
abbrev answer_head : ℕ → Headers → ℕ → Proxy → Proxy
answer_head hcl dh to p = say (headers to (p.client hcl).the_headers) (
    set_cookie to dh.setcookie
      (say (answer to (atoi dh.httpcode) dh.httptext) (force_handling to p)))

-- A request that a browser made.
unfoldable pub push_normal : ℕ → Headers → Req → Proxy → Proxy × Bool
push_normal hcl dh pr p =
    if (p.client pr.hcl).valid
    then (let q = answer_head hcl dh pr.hcl p in
        if (p.client hcl).content_length == 0
        then (
          reply hcl (txt "Push Forward successful\r\n") (say (free pr.hcl) (say (done pr.hcl) q)),
          false,
        )
        else (say (free pr.hcl) (say (forward hcl pr.hcl) q), true))
    else (reply hcl (txt "Remote closed connection\r\n") p, true)

-- `callback` stands for the functions of server/acs.c, which share a state X with the queues.
module _ {X : Type 0} (callback : Callback → ℕ → ℕ → X → Proxy → X × Proxy × Bool) where
  -- A request that djb made itself.
  abbrev pub push_internal : ℕ → Req → X × Proxy × Bool → X × Proxy × Bool
  push_internal hcl pr (x, p, true) =
      (x, reply hcl (txt "Internal Push Proxy successful\r\n") (say (free pr.hcl) p), true)
  push_internal hcl pr (x, p, false) = (x, record p { proxy_out = p.proxy_out ++ pr ∷ [] }, false)

  abbrev pub push_as : ℕ → Headers → Req → Option Callback → X → Proxy → X × Proxy × Bool
  push_as hcl dh pr (some cb) x p = push_internal hcl pr (callback cb hcl pr.hcl x p)
  push_as hcl dh pr none x p = let (q, served) = push_normal hcl dh pr p in (x, q, served)

  abbrev pub push_found : ℕ → Headers → Req → Option Headers → X → Proxy → X × Proxy × Bool
  push_found hcl dh pr none x p = (x, say abort p, true)
  push_found hcl dh pr (some pdh) x p = push_as hcl dh pr pdh.push x p

  abbrev pub push_at : ℕ → Headers → X → Proxy × Option Req → X × Proxy × Bool
  push_at hcl dh x (p, none) = (x, say (done hcl) p, true)
  push_at hcl dh x (p, some pr) = push_found hcl dh pr (p.client pr.hcl).user x p

  unfoldable pub djb_push : ℕ → Headers → X → Proxy → X × Proxy × Bool
  unfolding djb_find_req_dh push_normal
  djb_push hcl dh x p = push_at hcl dh x (djb_find_req_dh hcl dh p)
