-- ===== src/Proxy/Match.antt =====
-- Which request a push finds by its DJB-SeqNo, and a close by the client it was handed to
-- (djb_find_req_dh and djb_close in server/djb.c).
use mathlib.Core.Option.{some-injective}
use jumpbox.Base.{
  ℕ, ◌<◌, ◌≡◌, refl, sym, ◌∙◌, Bool, true, false, ◌&&◌, Option, none, some, List, [], ◌∷◌, ◌++◌,
  Text, arith, ◌==◌, if◌then◌else◌, count_if, is_empty, ==_refl,
}
use jumpbox.Http.{Client, Headers, Method, Event, header, djb_seqno}
use jumpbox.SeqNo.{print_seqno}
use jumpbox.SeqNo.RoundTrip.{limit, scan_seqno-print_seqno}
use jumpbox.Proxy.Queues.{Req, Proxy, find_req, find_phcl, reschedule, djb_close}
use jumpbox.Proxy.Forward.{djb_handle_forward}
use jumpbox.Proxy.Push.{djb_find_req_dh}
use jumpbox.Proxy.Ledger.{handed, djb_handle_forward-queues}

abbrev pub has_key : (ℕ → Client) → ℕ → ℕ → Req → Bool
has_key client id reqid r = ((client r.hcl).id == id) && ((client r.hcl).reqid == reqid)

find_req-snoc :
    (client : ℕ → Client) (id reqid : ℕ) (l : List Req) (r : Req)
    → has_key client id reqid r ≡ true
    → count_if (has_key client id reqid) l ≡ 0
    → find_req client id reqid (l ++ r ∷ []) ≡ (some r, l)
unfolding find_req
find_req-snoc client id reqid [] r h k = ground arith
find_req-snoc client id reqid (x ∷ l) r h k = ground (arith, find_req-snoc client id reqid l r h)

find_phcl-snoc :
    (id : ℕ) (l : List Req) (r : Req)
    → r.phcl_id ≡ id
    → count_if (λ x. x.phcl_id == id) l ≡ 0
    → find_phcl id (l ++ r ∷ []) ≡ (some r, l)
unfolding find_phcl
find_phcl-snoc id [] r h k = ground arith
find_phcl-snoc id (x ∷ l) r h k = ground (arith, find_phcl-snoc id l r h)

-- The newest DJB-SeqNo that was sent to a client.
unfoldable pub sent_seqno : ℕ → List Event → Option Text
sent_seqno to [] = none
sent_seqno to (header a djb_seqno v ∷ log) =
    let rest = sent_seqno to log in if a == to then some v else rest
sent_seqno to (_ ∷ log) = sent_seqno to log

sent_seqno-djb_handle_forward :
    (methodname : Method → Text) (pr ar : Req) (p : Proxy)
    → handed pr ar p ≡ true
    → let c = p.client pr.hcl in
      sent_seqno ar.hcl (djb_handle_forward methodname pr ar p).log
      ≡ some (print_seqno c.id c.reqid)
unfolding djb_handle_forward sent_seqno
sent_seqno-djb_handle_forward methodname pr ar p h = ground arith

-- The entry that djb_handle_forward leaves in `proxy_out`.
abbrev pub paired : Req → Req → Proxy → Req
paired pr ar p = record pr { phcl_id = (p.client ar.hcl).id }

queue_of_handed :
    (methodname : Method → Text) (pr ar : Req) (p : Proxy)
    → handed pr ar p ≡ true
    → let q = djb_handle_forward methodname pr ar p in
      (q.proxy_out ≡ p.proxy_out ++ paired pr ar p ∷ [])
      × (q.client ≡ p.client)
      × (q.proxy_new ≡ p.proxy_new)
queue_of_handed methodname pr ar p h =
    let (kept, out, pull, client) = djb_handle_forward-queues methodname pr ar p in
    (out ∙ rw h, client, kept)

find_req-handed :
    (methodname : Method → Text) (pr ar : Req) (p : Proxy)
    → handed pr ar p ≡ true
    → let c = p.client pr.hcl in
      let q = djb_handle_forward methodname pr ar p in
      count_if (has_key p.client c.id c.reqid) p.proxy_out ≡ 0
      → find_req q.client c.id c.reqid q.proxy_out ≡ (some (paired pr ar p), p.proxy_out)
find_req-handed methodname pr ar p given fresh =
    let (out, client, kept) = queue_of_handed methodname pr ar p given in
    let c = p.client pr.hcl in
    rw (out, client)
      (find_req-snoc p.client c.id c.reqid p.proxy_out (paired pr ar p)
        (ground (arith, ==_refl c.id, ==_refl c.reqid)) fresh)

-- The reply to a pull matches up: when djb_handle_forward has handed a request to a puller, a push
-- that echoes the DJB-SeqNo which the puller was sent, with a code and a text, gets this request
-- and takes just its entry off `proxy_out`. The ids are below 16 ^ 9, and no other outstanding
-- request has the same two.
pub djb_find_req_dh-djb_handle_forward :
    (methodname : Method → Text) (pr ar : Req) (p : Proxy) (hcl : ℕ) (dh : Headers)
    → handed pr ar p ≡ true
    → (p.client pr.hcl).id < limit
    → (p.client pr.hcl).reqid < limit
    → count_if (has_key p.client (p.client pr.hcl).id (p.client pr.hcl).reqid) p.proxy_out ≡ 0
    → is_empty dh.httpcode ≡ false
    → is_empty dh.httptext ≡ false
    → sent_seqno ar.hcl (djb_handle_forward methodname pr ar p).log ≡ some dh.seqno
    → djb_find_req_dh hcl dh (djb_handle_forward methodname pr ar p) ≡ (
      record (djb_handle_forward methodname pr ar p) { proxy_out = p.proxy_out },
      some (paired pr ar p),
    )
unfolding djb_find_req_dh
djb_find_req_dh-djb_handle_forward methodname pr ar p hcl dh given hi hr fresh code text echo =
    let c = p.client pr.hcl in
    let same : print_seqno c.id c.reqid ≡ dh.seqno =
      some-injective _ _ (sym (sent_seqno-djb_handle_forward methodname pr ar p given) ∙ echo) in
    rw (
      code,
      text,
      ← same,
      (scan_seqno-print_seqno c.id c.reqid).1 (hi, hr),
      find_req-handed methodname pr ar p given fresh,
    )

reschedule-found :
    (found : Option Req × List Req) (r : Req) (out : List Req) (q : Proxy)
    → found ≡ (some r, out)
    → reschedule found q ≡ record q { proxy_out = out; proxy_new = q.proxy_new ++ r ∷ [] }
reschedule-found found r out q e = rw e

-- When the puller that got a request closes before the answer came, djb_close takes the request
-- off `proxy_out` and puts it at the end of `proxy_new`, to be pulled again; nothing else changes.
-- No other outstanding request was handed to the same connection.
pub djb_close-djb_handle_forward :
    (methodname : Method → Text) (pr ar : Req) (p : Proxy)
    → handed pr ar p ≡ true
    → count_if (λ x. x.phcl_id == (p.client ar.hcl).id) p.proxy_out ≡ 0
    → djb_close ar.hcl (djb_handle_forward methodname pr ar p)
      ≡ record (djb_handle_forward methodname pr ar p) {
        proxy_out = p.proxy_out;
        proxy_new = p.proxy_new ++ paired pr ar p ∷ [];
      }
unfolding djb_close
djb_close-djb_handle_forward methodname pr ar p given fresh =
    let q = djb_handle_forward methodname pr ar p in
    let (out, client, kept) = queue_of_handed methodname pr ar p given in
    let found : find_phcl (q.client ar.hcl).id q.proxy_out ≡ (some (paired pr ar p), p.proxy_out) =
      rw (out, client)
        (find_phcl-snoc (p.client ar.hcl).id p.proxy_out (paired pr ar p) refl fresh) in
    reschedule-found _ (paired pr ar p) p.proxy_out q found ∙ rw kept
