-- ===== src/Acs/Laws.antt =====
-- When the dance of server/acs.c may start, what it leaves in the queue, and how it ends.
use jumpbox.Base.{
  ℕ, suc, ◌≡◌, refl, Bool-cases, ◌||◌, ◌∙◌, Bool, true, false, not, ◌&&◌, Option, none, some, [],
  ◌∷◌, Text, txt, arith, length, length-append, if◌then◌else◌, ltb, Option-cases, inl, inr, if_both,
}
use jumpbox.Http.{Status, Client, Headers, Callback, djb_ok}
use jumpbox.Jansson.{Jansson, object_at}
use jumpbox.Proxy.Queues.{Proxy, new_req, djb_proxy_add}
use jumpbox.Atoi.{atoi}
use jumpbox.Acs.State.{
  ticked, lock_status, lock_dancing, unlock_status, unlock_dancing, Acs, World, acs_status,
  acs_sitdown, acs_keep_running,
}
use jumpbox.Acs.Net.{
  when_value, when_interval, acs_check_net, acs_set_net, acs_net_string, acs_when, string_of,
}
use jumpbox.Prefs.Bridges.{prf_set_bridge_access_list}
use jumpbox.Acs.Dance.{
  sent, send, request_from, request_to, acs_request, acs_initial, acs_redirect_answer,
  redirect_body,
}
use jumpbox.Acs.Progress.{start_dance, dance_with, progress_begin}

module _ (J : Jansson) (w : World) where
  -- Whether a time lies in an interval that could be read.
  abbrev pub covers : ℕ → Option (ℕ × ℕ) → Bool
  covers now none = false
  covers now (some (start, end)) = not (ltb now start) && ltb now end

  -- Whether a NET with this "when" is valid at a time.
  abbrev pub valid_at : ℕ → Option J.Json → Bool
  valid_at now none = true
  valid_at now (some j) = J.is_string j && covers now (w.parse_interval (J.string_value j))

  when_interval_lem :
      (when : Text) (i : Option (ℕ × ℕ)) (a : Acs J.Json)
      → let (b, ok) = when_interval J w when i a in
        (ok ≡ covers (w.now a.tick) i) × (b.l_dancing ≡ (ok && a.l_dancing))
  unfolding acs_status acs_sitdown
  when_interval_lem when none a = ground arith
  when_interval_lem when (some (start, end)) a = ground arith

  when_value_lem :
      (o : Option J.Json) (a : Acs J.Json)
      → let (b, ok) = when_value J w o a in
        (ok ≡ valid_at (w.now a.tick) o) × (b.l_dancing ≡ (ok && a.l_dancing))
  unfolding acs_status acs_sitdown
  when_value_lem none a = ground arith
  when_value_lem (some j) a =
      ground (arith, when_interval_lem (J.string_value j) (w.parse_interval (J.string_value j)) a)

  -- acs_when says yes exactly if the NET has no "when", or a string that is an interval with the
  -- time inside it, its end excluded; whenever it says no, it has ended the dance, and otherwise it
  -- has left l_dancing alone.
  pub acs_when-valid :
      (a : Acs J.Json)
      → let (b, ok) = acs_when J w a in
        (ok ≡ valid_at (w.now a.tick) (object_at J a.l_net (txt "when")))
        × (b.l_dancing ≡ (ok && a.l_dancing))
  unfolding acs_when
  acs_when-valid a = when_value_lem (object_at J a.l_net (txt "when")) a

  -- What l_net becomes.
  abbrev pub taken_net : Bool → J.Json → Option J.Json → Option J.Json
  taken_net dancing net old = if dancing then old else (if J.is_object net then some net else none)

  -- A NET is refused, and the old one kept, exactly if a dance is going on. Otherwise acs_set_net
  -- says that it took the NET, also where it is not an object and no NET is left. It neither
  -- starts nor ends a dance.
  pub acs_set_net_lem :
      (net : J.Json) (a : Acs J.Json)
      → let (b, ok) = acs_set_net J w (some net) a in
        (ok ≡ not a.l_dancing)
        × (b.l_net ≡ taken_net a.l_dancing net a.l_net)
        × (b.l_dancing ≡ a.l_dancing)
  unfolding acs_set_net acs_status acs_check_net
  acs_set_net_lem net a = elim (Option-cases (J.dumps_ascii net)) [
    | inl e ↦ ground arith
    | inr (j, e) ↦ ground arith
  ]

  redirect_body-ends :
      (sc : Client) (code : ℕ) (text : Text) (body : Option Text) (hcl : ℕ) (list : Option J.Json)
      (a : Acs J.Json) (p : Proxy)
      → let (b, q, over, after) = redirect_body J w sc code text body hcl list a p in
        b.l_dancing ≡ (not over && a.l_dancing)
  unfolding acs_status acs_sitdown prf_set_bridge_access_list
  redirect_body-ends sc code text none hcl list a p = ground arith
  redirect_body-ends sc code text (some body) hcl list a p =
      elim (Option-cases (w.steg_decode body sc.content_type)) [
        | inl e ↦ ground arith
        | inr (ans, e) ↦ ground (arith, Option-cases (J.loads ans))
      ]

  -- The callback of the redirect request, when it returns true, has ended the dance, whatever the
  -- answer was; when it returns false, which is to wait for the body, the dance goes on as it was.
  pub acs_redirect_answer-ends :
      (sc : Client) (sdh : Headers) (hcl : ℕ) (list : Option J.Json) (a : Acs J.Json) (p : Proxy)
      → let (b, q, over, after) = acs_redirect_answer J w sc sdh hcl list a p in
        b.l_dancing ≡ (not over && a.l_dancing)
  unfolding acs_redirect_answer acs_status acs_sitdown
  acs_redirect_answer-ends sc sdh hcl list a p =
      ground
        (arith, redirect_body-ends sc (atoi sdh.httpcode) sdh.httptext sc.readbody hcl list a p)

  -- Either one more request is queued, or the dance is over.
  abbrev pub Goes : Proxy → Acs J.Json × Proxy → Type 0
  Goes p (b, q) =
      length q.proxy_new ≡ (if b.l_dancing then suc (length p.proxy_new) else length p.proxy_new)

  send-queues :
      (u m : Bool) (cb : Callback) (host uri : Text) (hcl : ℕ) (a : Acs J.Json) (p : Proxy)
      → let (b, q, ok) = send J w u m cb host uri hcl a p in
        (b.l_dancing ≡ a.l_dancing)
        × (length q.proxy_new ≡ (if ok then suc (length p.proxy_new) else length p.proxy_new))
  unfolding acs_status djb_proxy_add
  send-queues u m cb host uri hcl a p = ground (arith, length-append p.proxy_new (new_req hcl ∷ []))

  request_from-queues :
      (cb : Callback) (host uri : Text) (cl : Option ℕ) (a : Acs J.Json) (p : Proxy)
      → let (b, q, ok) = request_from J w cb host uri cl a p in
        (b.l_dancing ≡ a.l_dancing)
        × (length q.proxy_new ≡ (if ok then suc (length p.proxy_new) else length p.proxy_new))
  unfolding acs_status
  request_from-queues cb host uri none a p = ground arith
  request_from-queues cb host uri (some hcl) a p =
      send-queues (w.calloc_ok a.tick) (w.calloc_ok (suc a.tick)) cb host uri hcl a p

  -- acs_request says that it failed exactly if it queued nothing, unless the program shuts down:
  -- then it ends the dance.
  acs_request-Goes :
      (cb : Callback) (host uri msg : Text) (a : Acs J.Json) (p : Proxy)
      → a.l_dancing ≡ true
      → Goes p (sent J w msg (acs_request J w cb host uri a p))
  unfolding acs_request acs_status acs_sitdown acs_keep_running
  acs_request-Goes cb host uri msg a p h =
      let b = ticked (acs_keep_running w a).0 in
      ground (arith, request_from-queues cb host uri (w.newcl (suc a.tick)) b p)

  -- A host that is not in the NET ends the dance.
  pub Missed : Acs J.Json × Option Text → Type 0
  Missed (a, none) = a.l_dancing ≡ false
  Missed (a, some host) = a.l_dancing ≡ true

  pub string_of-Missed :
      (o : Option J.Json) (desc : Text) (a : Acs J.Json)
      → a.l_dancing ≡ true
      → Missed (string_of J w o desc a)
  unfolding Missed acs_status acs_sitdown
  string_of-Missed none desc a h = refl
  string_of-Missed (some j) desc a h = if_both Missed (J.is_string j) h refl

  pub request_to-Goes :
      (cb : Callback) (msg : Text) (r : Acs J.Json × Option Text) (p : Proxy)
      → Missed r
      → Goes p (request_to J w cb msg r p)
  unfolding Missed
  request_to-Goes cb msg (a, none) p h = ground arith
  request_to-Goes cb msg (a, some host) p h = acs_request-Goes cb host (txt "/") msg a p h

  acs_initial-Goes :
      (a : Acs J.Json) (p : Proxy) → a.l_dancing ≡ true → Goes p (acs_initial J w a p)
  unfolding acs_initial acs_net_string
  acs_initial-Goes a p h = request_to-Goes _ _ _ p (string_of-Missed _ _ a h)

  pub acs_status-dancing :
      (s : Status) (text : Text) (a : Acs J.Json) → (acs_status w s text a).l_dancing ≡ a.l_dancing
  unfolding acs_status
  acs_status-dancing s text a = ground arith

  start_dance-Goes :
      (r : Acs J.Json × Bool) (p : Proxy) → r.0.l_dancing ≡ r.1 → Goes p (start_dance J w r p)
  unfolding acs_status
  start_dance-Goes (a, true) p h =
      acs_initial-Goes (acs_status w djb_ok (txt "Starting to dance...") a) p
        (acs_status-dancing djb_ok (txt "Starting to dance...") a ∙ h)
  start_dance-Goes (a, false) p h = ground arith

  dance_with-Goes :
      (net : Option J.Json) (a : Acs J.Json) (p : Proxy)
      → a.l_dancing ≡ false
      → Goes p (dance_with J w net a p)
  unfolding acs_status
  dance_with-Goes none a p h = ground arith
  dance_with-Goes (some net) a p h = start_dance-Goes _ p (
      ground
        (arith, acs_when-valid (unlock_dancing (unlock_status (record a { l_dancing = true })))))

  -- A request for progress, by the time it looks at the messages: one more request was queued
  -- exactly if a dance goes on that did not before, so that no dance waits for the answer to a
  -- request that was never made, and no second dance is started; and it ends no dance that went on
  -- before.
  pub progress_begin-Goes :
      (a : Acs J.Json) (p : Proxy)
      → let (b, q) = progress_begin J w a p in
        (length q.proxy_new ≡ (
          if b.l_dancing && not a.l_dancing then suc (length p.proxy_new) else length p.proxy_new))
        × (b.l_dancing ≡ (b.l_dancing || a.l_dancing))
  unfolding progress_begin
  progress_begin-Goes a p = elim (Bool-cases a.l_dancing) [
    | inl h ↦ ground arith
    | inr h ↦ ground (arith, dance_with-Goes a.l_net (lock_status (lock_dancing a)) p h)
  ]
