-- ===== src/Proxy/Body.antt =====
-- The end of a forwarded body: djb_bodyfwd_done (server/djb.c).
use jumpbox.Base.{
  ℕ, ◌+◌, ◌≡◌, ◌≢◌, true, not, ◌&&◌, List, [], ◌∷◌, txt, strncaseeq, arith, ◌==◌, if◌then◌else◌,
}
use jumpbox.Http.{Headers, Event, answer_ok, put, html, update}
use jumpbox.Proxy.Queues.{Req, Proxy, say}
use jumpbox.Proxy.Push.{push_normal}

-- libfutil calls it when the body of this client has been forwarded.
unfoldable pub djb_bodyfwd_done : ℕ → Proxy → Proxy
djb_bodyfwd_done hcl p =
    if strncaseeq (p.client hcl).uri (txt "/push/") 6
    then say (put hcl (txt "Push Body Forward successful\r\n")) (say (answer_ok hcl html) p)
    else p

-- How often a client got the answer 200 from djb itself.
unfoldable pub answers : ℕ → List Event → ℕ
answers to [] = 0
answers to (answer_ok a c ∷ log) = (if a == to then 1 else 0) + answers to log
answers to (_ ∷ log) = answers to log

-- The pusher's URI is left alone.
uri_of_push :
    (hcl : ℕ) (dh : Headers) (pr : Req) (p : Proxy)
    → hcl ≢ pr.hcl
    → ((push_normal hcl dh pr p).0.client hcl).uri ≡ (p.client hcl).uri
unfolding push_normal update
uri_of_push hcl dh pr p h = ground arith

-- A push that answers the request of another client is answered 200 exactly once: at once, or, if
-- the client is there and the push has a body, when the body has been forwarded; the client, which
-- gets the answer of the push, never gets one of djb's own.
pub push_normal-answers :
    (hcl : ℕ) (dh : Headers) (pr : Req) (p : Proxy)
    → hcl ≢ pr.hcl
    → strncaseeq (p.client hcl).uri (txt "/push/") 6 ≡ true
    → let q = (push_normal hcl dh pr p).0 in
      let body = (p.client pr.hcl).valid && not ((p.client hcl).content_length == 0) in
      let r = if body then djb_bodyfwd_done hcl q else q in
      (answers hcl r.log ≡ answers hcl p.log + 1) × (answers pr.hcl r.log ≡ answers pr.hcl p.log)
unfolding push_normal djb_bodyfwd_done answers
push_normal-answers hcl dh pr p h k = ground (arith, uri_of_push hcl dh pr p h)
