-- ===== src/Proxy/Forward.antt =====
-- djb_handle_forward: a request meets a puller (server/djb.c).
use jumpbox.Base.{ℕ, Option, none, some, [], ◌∷◌, ◌++◌, Text, txt, is_empty, ◌==◌, if◌then◌else◌}
use jumpbox.Http.{
  Client, Headers, Method, html, no_ctype, answer_ok, header, put, done, forward, handling_done,
  abort, is_post, is_none_method, djb_seqno, djb_method, djb_uri, djb_cookie, content_type_field,
}
use jumpbox.SeqNo.{print_seqno}
use jumpbox.Proxy.Queues.{Req, Proxy, say}

-- The headers and the body go to the puller, ar->hcl; the first argument is httpsrv_methodname.
abbrev describe : (Method → Text) → Client → ℕ → Proxy → Proxy
describe methodname c ar p = say (header ar djb_seqno (print_seqno c.id c.reqid)) (
    say (header ar djb_method (methodname c.method)) (
      say (header ar djb_uri (txt "http://" ++ c.hostname ++ c.rawuri))
        (say (answer_ok ar (if is_post c.method then no_ctype else html)) p)))

abbrev cookie : Option Headers → ℕ → Proxy → Proxy
cookie none ar p = p
cookie (some dh) ar p = if is_empty dh.cookie then p else say (header ar djb_cookie dh.cookie) p

abbrev finish_puller : ℕ → Proxy → Proxy
finish_puller ar p = say (handling_done ar) (say (done ar) p)

abbrev put_out : Req → Proxy → Proxy
put_out r p = record p { proxy_out = p.proxy_out ++ r ∷ [] }

-- What follows the headers, with the puller noted in the entry.
abbrev hand_out : Req → Client → ℕ → Proxy → Proxy
hand_out r c ar p =
    if is_post c.method
    then (let q =
          say
            (header ar content_type_field
              (if is_empty c.content_type then txt "text/html" else c.content_type))
            p in
        if c.content_length == 0
        then finish_puller ar (put_out r q)
        else say (forward r.hcl ar) (put_out r q))
    else finish_puller ar (put_out r (say (put ar (txt "Non-POST JumpBox response\r\n")) p))

-- `pr` is the request, `ar` the puller's entry. If the puller is gone, the request is dropped.
unfoldable pub djb_handle_forward : (Method → Text) → Req → Req → Proxy → Proxy
djb_handle_forward methodname pr ar p =
    if (p.client ar.hcl).valid
    then (let c = p.client pr.hcl in
        let q = describe methodname c ar.hcl p in
        if is_none_method c.method
        then say abort q
        else hand_out (record pr { phcl_id = (p.client ar.hcl).id }) c ar.hcl
            (cookie c.user ar.hcl q))
    else say (done ar.hcl) p
