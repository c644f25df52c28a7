-- ===== src/Acs/Locks/Handlers.antt =====
-- The mutexes over the callbacks and the handlers.
use jumpbox.Base.{
  ℕ, ◌≡◌, Bool, true, false, not, ◌&&◌, Option, none, some, List, [], ◌∷◌, Text, txt, arith, drop,
  strcaseeq, ◌==◌, if_both,
}
use jumpbox.Atoi.{atoi}
use jumpbox.Http.{Client, Headers, Event, Status, is_post}
use jumpbox.Jansson.{Jansson}
use jumpbox.Proxy.Queues.{Proxy}
use jumpbox.Acs.State.{Acs, World, acs_keep_running, lock_status, lock_dancing}
use jumpbox.Acs.Net.{setup_root, setup_body, acs_setup, acs_set_net}
use jumpbox.Prefs.Bridges.{prf_set_bridge_access_list}
use jumpbox.Acs.Dance.{
  failed, gives_up, bridges_set, decoded, redirect_body, Redirected, reads_body, acs_initial_answer,
  acs_redirect_answer,
}
use jumpbox.Acs.Progress.{
  is_ok, start_dance, dance_with, progress_begin, pop_message, acs_progress, progress_wake,
  acs_handle,
}
use jumpbox.Acs.Locks.{
  AtRest, DancedAtRest, said, acs_sitdown-AtRest, acs_keep_running-AtRest, acs_when-AtRest,
  acs_set_net-AtRest, acs_initial-AtRest, acs_wait-AtRest, ticked-AtRest,
}

module _ (J : Jansson) (w : World) where
  failed-AtRest :
      (what : Text) (hcl code : ℕ) (text : Text) (a : Acs J.Json) (p : Proxy)
      → AtRest a
      → DancedAtRest J w (failed J w what hcl code text a p)
  failed-AtRest what hcl code text a p h = acs_sitdown-AtRest _ (said J w _ _ a h)

  -- The callback of the initial request, entered with both mutexes free, leaves both free, having
  -- locked neither twice nor in the wrong order, the moonwalk and the next request included.
  pub acs_initial_answer-AtRest :
      (sdh : Headers) (hcl : ℕ) (a : Acs J.Json) (p : Proxy)
      → AtRest a
      → AtRest (acs_initial_answer J w sdh hcl a p).0
  unfolding acs_initial_answer
  acs_initial_answer-AtRest sdh hcl a p h =
      let k = acs_keep_running-AtRest w _ (said J w _ _ a h) in
      if_both (DancedAtRest J w) (atoi sdh.httpcode == 200)
        (if_both (DancedAtRest J w) (acs_keep_running w _).1 (acs_wait-AtRest J w _ _ k) k)
        (failed-AtRest _ hcl _ sdh.httptext a p h)

  gives_up-AtRest :
      (msg : Text) (a : Acs J.Json) (p : Proxy) → AtRest a → DancedAtRest J w (gives_up J w msg a p)
  gives_up-AtRest msg a p h = acs_sitdown-AtRest _ (said J w _ msg a h)

  bridges_set-AtRest : (ok : Bool) (a : Acs J.Json) → AtRest a → AtRest (bridges_set J w ok a)
  bridges_set-AtRest true a h = said J w _ _ _ (said J w _ _ a h)
  bridges_set-AtRest false a h = said J w _ _ a h

  abbrev RedirectedAtRest : Redirected J w → Type 0
  RedirectedAtRest r = AtRest r.0

  decoded-AtRest :
      (code : ℕ) (text : Text) (ans : Option Text) (hcl : ℕ) (list : Option J.Json) (a : Acs J.Json)
      (p : Proxy)
      → AtRest a
      → RedirectedAtRest (decoded J w code text ans hcl list a p)
  decoded-AtRest code text none hcl list a p h = gives_up-AtRest _ a p h
  decoded-AtRest code text (some ans) hcl list a p h =
      acs_sitdown-AtRest _
        (bridges_set-AtRest (prf_set_bridge_access_list J ans).1 _ (said J w _ _ a h))

  reads_body-AtRest :
      (sc : Client) (a : Acs J.Json) (p : Proxy)
      → AtRest a
      → DancedAtRest J w (reads_body J w sc a p)
  reads_body-AtRest sc a p h =
      if_both (DancedAtRest J w) (sc.content_length == 0) (gives_up-AtRest _ a p h) (
        if_both (DancedAtRest J w) (w.readbody_alloc_ok a.tick) (ticked-AtRest a h)
          (gives_up-AtRest _ _ p (ticked-AtRest a h)))

  redirect_body-AtRest :
      (sc : Client) (code : ℕ) (text : Text) (body : Option Text) (hcl : ℕ) (list : Option J.Json)
      (a : Acs J.Json) (p : Proxy)
      → AtRest a
      → RedirectedAtRest (redirect_body J w sc code text body hcl list a p)
  redirect_body-AtRest sc code text none hcl list a p h = reads_body-AtRest sc a p h
  redirect_body-AtRest sc code text (some body) hcl list a p h =
      decoded-AtRest code text _ hcl list a p h

  -- The callback of the redirect request, entered with both mutexes free, leaves both free, having
  -- locked neither twice nor in the wrong order.
  pub acs_redirect_answer-AtRest :
      (sc : Client) (sdh : Headers) (hcl : ℕ) (list : Option J.Json) (a : Acs J.Json) (p : Proxy)
      → AtRest a
      → AtRest (acs_redirect_answer J w sc sdh hcl list a p).0
  unfolding acs_redirect_answer
  acs_redirect_answer-AtRest sc sdh hcl list a p h =
      if_both RedirectedAtRest (atoi sdh.httpcode == 200)
        (redirect_body-AtRest sc _ _ sc.readbody hcl list a p h)
        (failed-AtRest _ hcl _ sdh.httptext a p h)

  start_dance-AtRest :
      (r : Acs J.Json × Bool) (p : Proxy) → AtRest r.0 → AtRest (start_dance J w r p).0
  start_dance-AtRest (a, true) p h = acs_initial-AtRest J w _ p (said J w _ _ a h)
  start_dance-AtRest (a, false) p h = h

  -- Both mutexes are held.
  dance_with-AtRest :
      (net : Option J.Json) (a : Acs J.Json) (p : Proxy)
      → AtRest a
      → AtRest (dance_with J w net (lock_status (lock_dancing a)) p).0
  dance_with-AtRest none a p h = said J w _ _ _ (ground arith)
  dance_with-AtRest (some net) a p h = start_dance-AtRest _ p (acs_when-AtRest J w _ (ground arith))

  -- l_status_mutex alone is held.
  abbrev Locked : Acs J.Json → Type 0
  Locked a = AtRest (record a { status_held = false }) × (a.status_held ≡ true)

  lock_status-Locked : (a : Acs J.Json) → AtRest a → Locked (lock_status a)
  lock_status-Locked a h = ground arith

  progress_begin-Locked :
      (a : Acs J.Json) (p : Proxy) → AtRest a → Locked (progress_begin J w a p).0
  unfolding progress_begin
  progress_begin-Locked a p h =
      if_both (λ (r : Acs J.Json × Proxy). Locked r.0) (not a.l_dancing && is_ok a.l_status)
        (lock_status-Locked _ (dance_with-AtRest a.l_net a p h)) (ground arith)

  pop_message-AtRest :
      (hcl : ℕ) (l : List (Status × Text)) (other : Option (List Event)) (a : Acs J.Json)
      → Locked a
      → AtRest (pop_message J w hcl l other a).0
  pop_message-AtRest hcl [] other a h = ground arith
  pop_message-AtRest hcl ((s, t) ∷ l) other a h = ground arith

  acs_progress-AtRest :
      (hcl : ℕ) (a : Acs J.Json) (p : Proxy) → AtRest a → AtRest (acs_progress J w hcl a p).0
  unfolding acs_progress
  acs_progress-AtRest hcl a p h = pop_message-AtRest hcl _ none _ (progress_begin-Locked a p h)

  -- A request for progress that has waited for a message locks l_status_mutex again, and leaves
  -- both mutexes free, having locked neither twice nor in the wrong order.
  pub progress_wake-AtRest :
      (hcl : ℕ) (a : Acs J.Json) → AtRest a → AtRest (progress_wake J w hcl a).0
  unfolding progress_wake
  progress_wake-AtRest hcl a h = pop_message-AtRest hcl _ _ _ (lock_status-Locked a h)

  setup_root-AtRest :
      (hcl : ℕ) (root : Option J.Json) (a : Acs J.Json)
      → AtRest a
      → AtRest (setup_root J w hcl root a).0
  setup_root-AtRest hcl none a h = h
  setup_root-AtRest hcl (some root) a h =
      let k = acs_set_net-AtRest J w (some root) a h in
      if_both (λ (r : Acs J.Json × List Event × Bool). AtRest r.0) (acs_set_net J w (some root) a).1
        k k

  setup_body-AtRest :
      (hcl : ℕ) (c : Client) (body : Option Text) (a : Acs J.Json)
      → AtRest a
      → AtRest (setup_body J w hcl c body a).0
  setup_body-AtRest hcl c (some body) a h = setup_root-AtRest hcl (J.loads body) a h
  setup_body-AtRest hcl c none a h =
      if_both (λ (r : Acs J.Json × List Event × Bool). AtRest r.0) (c.content_length == 0) h
        (if_both (λ (r : Acs J.Json × List Event × Bool). AtRest r.0) (w.readbody_alloc_ok a.tick)
          (ticked-AtRest a h) (ticked-AtRest a h))

  acs_setup-AtRest :
      (hcl : ℕ) (c : Client) (a : Acs J.Json) → AtRest a → AtRest (acs_setup J w hcl c a).0
  unfolding acs_setup
  acs_setup-AtRest hcl c a h =
      if_both (λ (r : Acs J.Json × List Event × Bool). AtRest r.0) (is_post c.method)
        (setup_body-AtRest hcl c c.readbody a h) h

  abbrev AnsweredAtRest : Acs J.Json × Proxy × Option (List Event) × Bool → Type 0
  AnsweredAtRest r = AtRest r.0

  -- No request to the ACS API can deadlock the module with itself: every branch of acs_handle, up
  -- to the wait for a message, starts with both mutexes free and ends with both free, locks none
  -- that it holds, unlocks none that it does not hold, and never takes l_dancing_mutex inside
  -- l_status_mutex.
  pub acs_handle-AtRest :
      (hcl : ℕ) (c : Client) (a : Acs J.Json) (p : Proxy)
      → AtRest a
      → AtRest (acs_handle J w hcl c a p).0
  unfolding acs_handle
  acs_handle-AtRest hcl c a p h =
      if_both AnsweredAtRest (strcaseeq (drop 4 c.uri) (txt "/setup/")) (acs_setup-AtRest hcl c a h)
        (if_both AnsweredAtRest (strcaseeq (drop 4 c.uri) (txt "/progress/"))
          (acs_progress-AtRest hcl a p h) h)
