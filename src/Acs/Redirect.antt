-- ===== src/Acs/Redirect.antt =====
-- The request to the redirect gateway that a dance makes: acs_redirect (server/acs.c), down to the
-- queues.
use jumpbox.Base.{
  ℕ, suc, ◌≡◌, refl, ◌∙◌, Bool, true, false, ◌&&◌, Option, none, some, Text, txt, arith, ◌==◌, ◌⊎◌,
  inl, inr, [], ◌∷◌, ◌++◌, if◌then◌else◌, if_cases,
}
use jumpbox.Http.{Status, Callback, redirect_answer, m_get, update}
use jumpbox.Jansson.{Jansson, object_at}
use jumpbox.Proxy.Queues.{Proxy, new_req, djb_proxy_add}
use jumpbox.Acs.State.{Acs, World, ticked, acs_status, acs_sitdown, acs_keep_running}
use jumpbox.Acs.Net.{acs_net_string, string_of}
use jumpbox.Acs.Dance.{
  Danced, internal_headers, send, request_from, acs_request, sent, request_to, acs_redirect,
}
use jumpbox.Acs.Laws.{acs_status-dancing}

-- One request more, which waits behind the others: a GET of / at a host, made by
-- djb for a callback.
abbrev pub Queued : Callback → Text → Proxy → Proxy → Type 0
Queued cb host p q =
    (hcl : ℕ) × ((q.proxy_new ≡ p.proxy_new ++ new_req hcl ∷ [])
      × ((q.client hcl).user ≡ some (internal_headers cb))
      × ((q.client hcl).method ≡ m_get)
      × ((q.client hcl).hostname ≡ host)
      × ((q.client hcl).rawuri ≡ txt "/"))

module _ (J : Jansson) where
  -- The text that a NET has under a name.
  abbrev text_at : Option J.Json → Option Text
  text_at none = none
  text_at (some j) = if J.is_string j then some (J.string_value j) else none

  abbrev pub gateway : Option J.Json → Option Text
  gateway net = text_at (object_at J net (txt "redirect"))

  -- The dance goes on, and has made the one request to the redirect gateway of the NET; or it is
  -- over, and has made none.
  abbrev pub Redirects : Option J.Json → Proxy → Acs J.Json × Proxy → Type 0
  Redirects net p (b, q) =
      ((b.l_dancing ≡ false) × (q.proxy_new ≡ p.proxy_new))
      ⊎ ((b.l_dancing ≡ true)
          × ((host : Text) × ((gateway net ≡ some host) × Queued redirect_answer host p q)))

  -- A window of 0, which acs_wait would divide by.
  abbrev pub is_zero : Option J.Json → Bool
  is_zero none = false
  is_zero (some j) = J.is_number j && (J.number_value j == 0)

module _ (J : Jansson) (w : World) where
  abbrev Sent : Text → Proxy → Danced J w → Type 0
  Sent host p (a, q, true) = (a.l_dancing ≡ true) × Queued redirect_answer host p q
  Sent host p (a, q, false) = (a.l_dancing ≡ true) × (q.proxy_new ≡ p.proxy_new)

  send-Sent :
      (u m : Bool) (host : Text) (hcl : ℕ) (a : Acs J.Json) (p : Proxy)
      → a.l_dancing ≡ true
      → Sent host p (send J w u m redirect_answer host (txt "/") hcl a p)
  unfolding djb_proxy_add update
  send-Sent true true host hcl a p h = (h, (hcl, ground arith))
  send-Sent true false host hcl a p h = (h, refl)
  send-Sent false m host hcl a p h = (acs_status-dancing J w _ _ _ ∙ h, refl)

  request_from-Sent :
      (host : Text) (cl : Option ℕ) (a : Acs J.Json) (p : Proxy)
      → a.l_dancing ≡ true
      → Sent host p (request_from J w redirect_answer host (txt "/") cl a p)
  request_from-Sent host none a p h = (acs_status-dancing J w _ _ _ ∙ h, refl)
  request_from-Sent host (some hcl) a p h =
      send-Sent (w.calloc_ok a.tick) (w.calloc_ok (suc a.tick)) host hcl a p h

  -- What the state keeps that the dance goes on in.
  abbrev pub Kept : Acs J.Json × Bool → Type 0
  Kept (a, b) = a.l_dancing ≡ b

  pub acs_keep_running-Kept : (a : Acs J.Json) → a.l_dancing ≡ true → Kept (acs_keep_running w a)
  unfolding acs_keep_running acs_status acs_sitdown
  acs_keep_running-Kept a h = ground arith

  pub acs_status-net :
      (s : Status) (text : Text) (a : Acs J.Json) → (acs_status w s text a).l_net ≡ a.l_net
  unfolding acs_status
  acs_status-net s text a = ground arith

  pub acs_keep_running-net : (a : Acs J.Json) → (acs_keep_running w a).0.l_net ≡ a.l_net
  unfolding acs_keep_running acs_sitdown acs_status
  acs_keep_running-net a = ground arith

module _ (J : Jansson) (w : World) (net : Option J.Json) where
  sent-Redirects :
      (host msg : Text) (d : Danced J w) (p : Proxy)
      → gateway J net ≡ some host
      → Sent J w host p d
      → Redirects J net p (sent J w msg d)
  unfolding acs_sitdown
  sent-Redirects host msg (a, q, true) p g (h, s) =
      inr (acs_status-dancing J w _ _ a ∙ h, (host, (g, s)))
  sent-Redirects host msg (a, q, false) p g (h, s) = inl (refl, s)

  acs_request-Redirects :
      (host msg : Text) (a : Acs J.Json) (p : Proxy)
      → gateway J net ≡ some host
      → a.l_dancing ≡ true
      → Redirects J net p (sent J w msg (acs_request J w redirect_answer host (txt "/") a p))
  unfolding acs_request
  acs_request-Redirects host msg a p g h =
      let (b, running) = acs_keep_running w a in
      let k = acs_keep_running-Kept J w a h in
      if_cases (λ d. Redirects J net p (sent J w msg d)) running
        (λ e.
          sent-Redirects host msg _ p g
            (request_from-Sent J w host (w.newcl b.tick) (ticked b) p (k ∙ e)))
        (λ e. inl (acs_status-dancing J w _ _ b ∙ k ∙ e, refl))

  -- The state goes on in the dance with the NET.
  abbrev pub Dances : Acs J.Json → Type 0
  Dances a = (a.l_dancing ≡ true) × (a.l_net ≡ net)

  -- A host that is not in the NET ends the dance.
  abbrev Found : Acs J.Json × Option Text → Type 0
  Found (a, none) = a.l_dancing ≡ false
  Found (a, some host) = (a.l_dancing ≡ true) × (gateway J net ≡ some host)

  string_of-Found :
      (o : Option J.Json) (desc : Text) (a : Acs J.Json)
      → Dances a
      → object_at J net (txt "redirect") ≡ o
      → Found (string_of J w o desc a)
  unfolding acs_status acs_sitdown
  string_of-Found none desc a h e = refl
  string_of-Found (some j) desc a h e =
      if_cases Found (J.is_string j) (λ s. (h.0, ground arith)) (λ s. refl)

  request_to-Redirects :
      (msg : Text) (r : Acs J.Json × Option Text) (p : Proxy)
      → Found r
      → Redirects J net p (request_to J w redirect_answer msg r p)
  request_to-Redirects msg (a, none) p h = inl (h, refl)
  request_to-Redirects msg (a, some host) p (h, g) = acs_request-Redirects host msg a p g h

  pub acs_redirect-Redirects :
      (a : Acs J.Json) (p : Proxy) → Dances a → Redirects J net p (acs_redirect J w a p)
  unfolding acs_redirect acs_net_string
  acs_redirect-Redirects a p (h, e) =
      request_to-Redirects _ _ p (string_of-Found _ _ a (h, e) (rw e refl))
