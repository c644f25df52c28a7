-- ===== src/Acs/Moonwalk.antt =====
-- The dance from the answer to the initial request, over the wait, to the redirect request
-- (acs_initial_answer and acs_wait of server/acs.c).
use jumpbox.Base.{
  ℕ, ◌+◌, ◌%◌, ◌^◌, ◌≡◌, refl, ◌∙◌, true, false, Option, none, some, Text, txt, arith, ◌==◌, inl,
  if_both, if_cases,
}
use jumpbox.Http.{Headers, djb_ok, destroy}
use jumpbox.Atoi.{atoi}
use jumpbox.Jansson.{Jansson, object_at}
use jumpbox.Proxy.Queues.{Proxy, say}
use jumpbox.Acs.State.{Acs, World, acs_status, acs_sitdown, acs_keep_running}
use jumpbox.Acs.Net.{acs_net_number, number_of}
use jumpbox.Acs.Dance.{
  outcome, Danced, slept, moonwalk, wait_for, window_for, acs_wait, acs_initial_answer,
}
use jumpbox.Acs.Laws.{acs_status-dancing}
use jumpbox.Acs.Redirect.{
  Redirects, is_zero, acs_keep_running-Kept, acs_status-net, acs_keep_running-net, Dances,
  acs_redirect-Redirects,
}

module _ (J : Jansson) (w : World) (net : Option J.Json) where
  slept-Redirects :
      (a : Acs J.Json) (p : Proxy) → Dances J w net a → Redirects J net p (slept J w true a p)
  slept-Redirects a p (h, n) =
      let b = acs_status w djb_ok (txt "Moonwalk done") a in
      let k =
        acs_keep_running-Kept J w b (acs_status-dancing J w djb_ok (txt "Moonwalk done") a ∙ h) in
      let m = acs_keep_running-net J w b ∙ acs_status-net J w djb_ok (txt "Moonwalk done") a ∙ n in
      if_cases (Redirects J net p) (acs_keep_running w b).1
        (λ e. acs_redirect-Redirects J w net (acs_keep_running w b).0 p (k ∙ e, m))
        (λ e. inl (k ∙ e, refl))

  -- A number that is not in the NET ends the dance.
  abbrev Counted : Acs J.Json × Option ℕ → Type 0
  Counted (a, none) = a.l_dancing ≡ false
  Counted (a, some n) = Dances J w net a

  number_of-Counted :
      (o : Option J.Json) (desc : Text) (a : Acs J.Json)
      → Dances J w net a
      → Counted (number_of J w o desc a)
  unfolding acs_status acs_sitdown
  number_of-Counted none desc a h = refl
  number_of-Counted (some j) desc a h = if_both Counted (J.is_number j) h refl

module _ (J : Jansson) (w : World) (awake : (tick msecs : ℕ) → w.sleep tick msecs ≡ true) where
  moonwalk-Redirects :
      (net : Option J.Json) (secs : ℕ) (a : Acs J.Json) (p : Proxy)
      → Dances J w net a
      → Redirects J net p (moonwalk J w secs a p)
  moonwalk-Redirects net secs a p (h, n) =
      rw (awake _ _) (
        slept-Redirects J w net _ p
          (acs_status-dancing J w _ _ a ∙ h, acs_status-net J w _ _ a ∙ n))

  wait_for-Redirects :
      (net : Option J.Json) (window : ℕ) (r : Acs J.Json × Option ℕ) (p : Proxy)
      → (window == 0) ≡ false
      → Counted J w net r
      → Redirects J net p (wait_for J w window r p)
  wait_for-Redirects net window (a, none) p k h = inl (h, refl)
  wait_for-Redirects net window (a, some wait) p k h =
      rw k (moonwalk-Redirects net ((wait + w.random a.tick % window) % 2 ^ 64) _ p h)

  window_for-Redirects :
      (net o : Option J.Json) (a : Acs J.Json) (p : Proxy)
      → Dances J w net a
      → is_zero J o ≡ false
      → Redirects J net p (window_for J w (number_of J w o (txt "Delay window") a) p)
  unfolding acs_net_number acs_sitdown
  window_for-Redirects net none a p h z = inl (refl, refl)
  window_for-Redirects net (some j) a p h z =
      if_cases (λ r. Redirects J net p (window_for J w r p)) (J.is_number j)
        (λ e.
          wait_for-Redirects net (J.number_value j) _ p (ground arith)
            (number_of-Counted J w net _ _ a h))
        (λ e. inl (refl, refl))

  acs_wait-Redirects :
      (net : Option J.Json) (a : Acs J.Json) (p : Proxy)
      → Dances J w net a
      → is_zero J (object_at J net (txt "window")) ≡ false
      → Redirects J net p (acs_wait J w a p)
  unfolding acs_wait acs_net_number
  acs_wait-Redirects net a p (h, n) z =
      window_for-Redirects net (object_at J a.l_net (txt "window")) a p (h, n) (rw n z)

  abbrev DancedRedirects : Option J.Json → Proxy → Danced J w → Type 0
  DancedRedirects net p (a, q, over) = Redirects J net p (a, q)

  -- The callback of the initial request, called in a dance: either it has queued one more request
  -- behind the others, a GET of / at the redirect gateway of the NET with acs_redirect_answer as its
  -- callback, and the dance goes on, or it has queued none, and the dance is over. The sleep is
  -- never aborted, and the window of the NET is not the number 0.
  pub acs_initial_answer-Redirects :
      (sdh : Headers) (hcl : ℕ) (a : Acs J.Json) (p : Proxy)
      → a.l_dancing ≡ true
      → is_zero J (object_at J a.l_net (txt "window")) ≡ false
      → let (b, q, over) = acs_initial_answer J w sdh hcl a p in Redirects J a.l_net p (b, q)
  unfolding acs_initial_answer acs_sitdown
  acs_initial_answer-Redirects sdh hcl a p h z =
      let code = atoi sdh.httpcode in
      let said = outcome J w (txt "Initial success: HTTP ") code sdh.httptext in
      let s = acs_status w djb_ok said a in
      let k = acs_keep_running-Kept J w s (acs_status-dancing J w djb_ok said a ∙ h) in
      let net : (acs_keep_running w s).0.l_net ≡ a.l_net =
        acs_keep_running-net J w s ∙ acs_status-net J w djb_ok said a in
      if_both (DancedRedirects a.l_net p) (code == 200)
        (if_cases (DancedRedirects a.l_net p) (acs_keep_running w s).1
          (λ e.
            acs_wait-Redirects a.l_net (acs_keep_running w s).0 (say (destroy hcl) p) (k ∙ e, net)
              z)
          (λ e. inl (k ∙ e, refl)))
        (inl (refl, refl))
