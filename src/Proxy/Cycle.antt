-- ===== src/Proxy/Cycle.antt =====
-- The whole way of a request through the queues of server/djb.c: posted, pulled, handed out by a
-- worker, and answered by a push.
use jumpbox.Base.{
  ℕ, suc, ◌+◌, ◌<◌, ◌≡◌, ◌≢◌, refl, ap, ◌∙◌, Bool, true, false, none, some, List, [], ◌∷◌, Text,
  arith, ◌==◌, ==_refl, if◌then◌else◌, is_empty,
}
use jumpbox.Http.{Headers, Callback, Method, is_none_method}
use jumpbox.SeqNo.{print_seqno}
use jumpbox.SeqNo.RoundTrip.{limit, scan_seqno-print_seqno}
use jumpbox.Proxy.Queues.{Req, Proxy, new_req, find_req, djb_proxy_add, djb_pull_post}
use jumpbox.Proxy.Forward.{djb_handle_forward}
use jumpbox.Proxy.Push.{djb_find_req_dh, push_as, push_found, push_at, djb_push}
use jumpbox.Proxy.Workers.{System, Action, posts, pulls, takes, serves, pushes, pick, step, run}
use jumpbox.Proxy.Ledger.{djb_handle_forward-queues, push_normal-queues}
use jumpbox.Proxy.Ends.{dones, forwards, push_normal-ends}

-- A client that the answer is not for is not ended, and nothing is forwarded to it.
djb_handle_forward-log :
    (methodname : Method → Text) (b u h : ℕ) (p : Proxy)
    → b ≢ u
    → let q = djb_handle_forward methodname (new_req b) (new_req u) p in
      (dones b q.log ≡ dones b p.log) × (forwards h b q.log ≡ forwards h b p.log)
unfolding djb_handle_forward dones forwards
djb_handle_forward-log methodname b u h p n = ground arith

-- A push finds the only request that is out by its ids.
find-only :
    (h : ℕ) (dh : Headers) (r : Req) (p : Proxy)
    → let c = p.client r.hcl in
      p.proxy_out ≡ r ∷ []
      → c.id < limit
      → c.reqid < limit
      → is_empty dh.httpcode ≡ false
      → is_empty dh.httptext ≡ false
      → dh.seqno ≡ print_seqno c.id c.reqid
      → djb_find_req_dh h dh p ≡ (record p { proxy_out = [] }, some r)
unfolding djb_find_req_dh find_req
find-only h dh r p o i q code text e =
    let c = p.client r.hcl in
    rw
      (
        code,
        text,
        e,
        (scan_seqno-print_seqno c.id c.reqid).1 (i, q),
        o,
        ==_refl c.id,
        ==_refl c.reqid,
      )
      refl

module _ {X : Type 0} (methodname : Method → Text)
    (callback : Callback → ℕ → ℕ → X → Proxy → X × Proxy × Bool) where
  -- Nothing waits and no worker holds a request.
  abbrev pub AtRest : ℕ → System X → Type 0
  AtRest k s =
      (s.proxy.proxy_new ≡ [])
      × (s.proxy.proxy_out ≡ [])
      × (s.proxy.api_pull ≡ [])
      × (s.held ≡ [])
      × (s.idle ≡ suc k)

  abbrev pub handing : ℕ → ℕ → List Action
  handing b u = posts true b ∷ pulls true u ∷ takes ∷ serves 0 ∷ []

  -- The request is out, with its puller.
  abbrev IsOut : ℕ → ℕ → ℕ → ℕ → System X → System X → Type 0
  IsOut k b u h s q =
      let r = record (new_req b) { phcl_id = (s.proxy.client u).id } in
      (q.proxy.proxy_new ≡ [])
      × (q.proxy.proxy_out ≡ r ∷ [])
      × (q.proxy.api_pull ≡ [])
      × (q.held ≡ [])
      × (q.idle ≡ suc k)
      × (q.state ≡ s.state)
      × (q.proxy.client ≡ s.proxy.client)
      × (dones b q.proxy.log ≡ dones b s.proxy.log)
      × (forwards h b q.proxy.log ≡ forwards h b s.proxy.log)

  handing-IsOut :
      (k b u h : ℕ) (s : System X)
      → AtRest k s
      → b ≢ u
      → (s.proxy.client u).valid ≡ true
      → is_none_method (s.proxy.client b).method ≡ false
      → IsOut k b u h s (run methodname callback (handing b u) s)
  unfolding run step pick djb_proxy_add djb_pull_post dones forwards
  handing-IsOut k b u h s (n, o, p, e, i) d v m =
      let base = record s.proxy { proxy_new = []; api_pull = [] } in
      ground (
        arith,
        djb_handle_forward-queues methodname (new_req b) (new_req u) base,
        djb_handle_forward-log methodname b u h base d,
      )

  push_only :
      (h : ℕ) (dh pdh : Headers) (r : Req) (x : X) (p : Proxy)
      → djb_find_req_dh h dh p ≡ (record p { proxy_out = [] }, some r)
      → (p.client r.hcl).user ≡ some pdh
      → pdh.push ≡ none
      → let q : Proxy = record p { proxy_out = [] } in
        djb_push callback h dh x p ≡ push_as callback h dh r none x q
  unfolding djb_push
  push_only h dh pdh r x p f u n =
      let q : Proxy = record p { proxy_out = [] } in
      ap (push_at callback h dh x) f
      ∙ (ap (λ user. push_found callback h dh r user x q) u
          ∙ ap (λ cb. push_as callback h dh r cb x q) n)

  -- From rest and back: a request with a method, of a browser that is there, is posted, pulled by a
  -- puller that is there, handed out by a worker, and answered by a push with a code, a text and its
  -- sequence number, with memory for the entries. Then nothing waits and the workers are as before. If the push has no body, the
  -- browser's request was ended once, and if it has one, its body is forwarded to the browser. The
  -- browser is another client than the other two, its ids are below 16 ^ 9, and the request is no
  -- internal one.
  pub run-answers :
      (k b u h : ℕ) (dh pdh : Headers) (s : System X)
      → AtRest k s
      → b ≢ u
      → h ≢ b
      → (s.proxy.client u).valid ≡ true
      → (s.proxy.client b).valid ≡ true
      → is_none_method (s.proxy.client b).method ≡ false
      → (s.proxy.client b).user ≡ some pdh
      → pdh.push ≡ none
      → (s.proxy.client b).id < limit
      → (s.proxy.client b).reqid < limit
      → is_empty dh.httpcode ≡ false
      → is_empty dh.httptext ≡ false
      → dh.seqno ≡ print_seqno (s.proxy.client b).id (s.proxy.client b).reqid
      → let acts = posts true b ∷ pulls true u ∷ takes ∷ serves 0 ∷ pushes h dh ∷ [] in
        let q = run methodname callback acts s in
        let short = (s.proxy.client h).content_length == 0 in
        AtRest k q
        × (dones b q.proxy.log ≡ dones b s.proxy.log + (if short then 1 else 0))
        × (forwards h b q.proxy.log ≡ forwards h b s.proxy.log + (if short then 0 else 1))
  unfolding run step
  run-answers k b u h dh pdh s rest d d' v w m user n i j code text e =
      let mid = run methodname callback (handing b u) s in
      let r = record (new_req b) { phcl_id = (s.proxy.client u).id } in
      let out = handing-IsOut k b u h s rest d v m in
      let c : mid.proxy.client ≡ s.proxy.client = out.6 in
      let found : djb_find_req_dh h dh mid.proxy ≡ (record mid.proxy { proxy_out = [] }, some r) =
        find-only h dh r mid.proxy out.1 (rw c i) (rw c j) code text (rw c e) in
      let answered = push_only h dh pdh r mid.state mid.proxy found (rw c user) n in
      let p : Proxy = record mid.proxy { proxy_out = [] } in
      ground (arith, answered, out, push_normal-queues h dh r p, push_normal-ends h dh r p d')
