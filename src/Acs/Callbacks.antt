-- ===== src/Acs/Callbacks.antt =====
-- The dispatch of djb_push to the callbacks of server/acs.c, and what they do to the queues.
use jumpbox.Base.{
  ℕ, ◌≡◌, refl, Bool, true, false, Option, none, some, List, [], ◌∷◌, ◌++◌, Text, arith, ◌==◌,
  if_both,
}
use jumpbox.Http.{Client, Headers, Callback, initial_answer, redirect_answer, abort}
use jumpbox.Atoi.{atoi}
use jumpbox.Jansson.{Jansson}
use jumpbox.Proxy.Queues.{Req, Proxy, say, new_req, djb_proxy_add}
use jumpbox.Proxy.Conserve.{Adds}
use jumpbox.Acs.State.{Acs, World, acs_keep_running}
use jumpbox.Acs.Dance.{
  Danced, send, request_from, acs_request, sent, request_to, acs_redirect, slept, wait_for,
  window_for, acs_wait, acs_initial_answer, decoded, redirect_body, reads_body, Redirected,
  acs_redirect_answer,
}

append_nil : (l : List Req) → l ≡ l ++ []
append_nil [] = refl
append_nil (r ∷ l) = ground (arith, append_nil l)

module _ (J : Jansson) (w : World) where
  -- What the callbacks change beside the queues: the dance, and l_bridge_access_list.
  abbrev pub Dancer : Type 0
  Dancer = Acs J.Json × Option J.Json

  abbrev pub Called : Type 0
  Called = Dancer × Proxy × Bool

  -- The user data is read without a test for NULL.
  abbrev pub with_user : Option Headers → Dancer → Proxy → (Headers → Called) → Called
  with_user none x p f = (x, say abort p, true)
  with_user (some sdh) x p f = f sdh

  abbrev pub initial_called : Option J.Json → Danced J w → Called
  initial_called list (a, p, over) = ((a, list), p, over)

  abbrev pub redirect_called : Redirected J w → Called
  redirect_called (a, p, over, list) = ((a, list), p, over)

  -- pdh->push(hcl, pr->hcl)
  unfoldable pub push_callback : Callback → ℕ → ℕ → Dancer → Proxy → Called
  unfolding acs_initial_answer acs_redirect_answer
  push_callback initial_answer shcl hcl (a, list) p =
      with_user (p.client shcl).user (a, list) p
        λ sdh. initial_called list (acs_initial_answer J w sdh hcl a p)
  push_callback redirect_answer shcl hcl (a, list) p =
      with_user (p.client shcl).user (a, list) p
        λ sdh. redirect_called (acs_redirect_answer J w (p.client shcl) sdh hcl list a p)

  -- New requests are queued behind the others, and the outstanding ones are left alone.
  abbrev Extends : Proxy → Proxy → Type 0
  Extends p q = (xs : List Req) × (q.proxy_new ≡ p.proxy_new ++ xs) × (q.proxy_out ≡ p.proxy_out)

  same : (p : Proxy) → Extends p p
  same p = ([], append_nil p.proxy_new, refl)

  abbrev DancedExtends : Proxy → Danced J w → Type 0
  DancedExtends p r = Extends p r.1

  abbrev StepExtends : Proxy → Acs J.Json × Proxy → Type 0
  StepExtends p r = Extends p r.1

  send-Extends :
      (u m : Bool) (cb : Callback) (host uri : Text) (hcl : ℕ) (a : Acs J.Json) (p : Proxy)
      → DancedExtends p (send J w u m cb host uri hcl a p)
  unfolding djb_proxy_add
  send-Extends true true cb host uri hcl a p = (new_req hcl ∷ [], refl, refl)
  send-Extends true false cb host uri hcl a p = same p
  send-Extends false m cb host uri hcl a p = same p

  request_from-Extends :
      (cb : Callback) (host uri : Text) (cl : Option ℕ) (a : Acs J.Json) (p : Proxy)
      → DancedExtends p (request_from J w cb host uri cl a p)
  request_from-Extends cb host uri none a p = same p
  request_from-Extends cb host uri (some hcl) a p = send-Extends _ _ cb host uri hcl a p

  acs_request-Extends :
      (cb : Callback) (host uri : Text) (a : Acs J.Json) (p : Proxy)
      → DancedExtends p (acs_request J w cb host uri a p)
  unfolding acs_request
  acs_request-Extends cb host uri a p =
      if_both (DancedExtends p) (acs_keep_running w a).1 (request_from-Extends cb host uri _ _ p)
        (same p)

  sent-Extends :
      (msg : Text) (p : Proxy) (r : Danced J w) → DancedExtends p r → StepExtends p (sent J w msg r)
  sent-Extends msg p (a, q, true) h = h
  sent-Extends msg p (a, q, false) h = h

  request_to-Extends :
      (cb : Callback) (msg : Text) (r : Acs J.Json × Option Text) (p : Proxy)
      → StepExtends p (request_to J w cb msg r p)
  request_to-Extends cb msg (a, none) p = same p
  request_to-Extends cb msg (a, some host) p =
      sent-Extends msg p _ (acs_request-Extends cb host _ a p)

  acs_redirect-Extends : (a : Acs J.Json) (p : Proxy) → StepExtends p (acs_redirect J w a p)
  unfolding acs_redirect
  acs_redirect-Extends a p = request_to-Extends _ _ _ p

  slept-Extends : (b : Bool) (a : Acs J.Json) (p : Proxy) → StepExtends p (slept J w b a p)
  slept-Extends false a p = same p
  slept-Extends true a p =
      if_both (StepExtends p) (acs_keep_running w _).1 (acs_redirect-Extends _ p) (same p)

  wait_for-Extends :
      (window : ℕ) (r : Acs J.Json × Option ℕ) (p : Proxy) → StepExtends p (wait_for J w window r p)
  wait_for-Extends window (a, none) p = same p
  wait_for-Extends window (a, some wait) p =
      if_both (StepExtends p) (window == 0) (same p) (slept-Extends _ _ p)

  window_for-Extends : (r : Acs J.Json × Option ℕ) (p : Proxy) → StepExtends p (window_for J w r p)
  window_for-Extends (a, none) p = same p
  window_for-Extends (a, some window) p = wait_for-Extends window _ p

  acs_initial_answer-Extends :
      (sdh : Headers) (hcl : ℕ) (a : Acs J.Json) (p : Proxy)
      → DancedExtends p (acs_initial_answer J w sdh hcl a p)
  unfolding acs_initial_answer acs_wait
  acs_initial_answer-Extends sdh hcl a p =
      if_both (DancedExtends p) (atoi sdh.httpcode == 200)
        (if_both (DancedExtends p) (acs_keep_running w _).1 (window_for-Extends _ _) (same p))
        (same p)

  abbrev RedirectedExtends : Proxy → Redirected J w → Type 0
  RedirectedExtends p r = Extends p r.1

  decoded-Extends :
      (code : ℕ) (text : Text) (ans : Option Text) (hcl : ℕ) (list : Option J.Json) (a : Acs J.Json)
      (p : Proxy)
      → RedirectedExtends p (decoded J w code text ans hcl list a p)
  decoded-Extends code text none hcl list a p = same p
  decoded-Extends code text (some ans) hcl list a p = same p

  reads_body-Extends :
      (sc : Client) (a : Acs J.Json) (p : Proxy) → DancedExtends p (reads_body J w sc a p)
  reads_body-Extends sc a p =
      if_both (DancedExtends p) (sc.content_length == 0) (same p)
        (if_both (DancedExtends p) (w.readbody_alloc_ok a.tick) (same p) (same p))

  redirect_body-Extends :
      (sc : Client) (code : ℕ) (text : Text) (body : Option Text) (hcl : ℕ) (list : Option J.Json)
      (a : Acs J.Json) (p : Proxy)
      → RedirectedExtends p (redirect_body J w sc code text body hcl list a p)
  redirect_body-Extends sc code text none hcl list a p = reads_body-Extends sc a p
  redirect_body-Extends sc code text (some body) hcl list a p =
      decoded-Extends code text _ hcl list a p

  acs_redirect_answer-Extends :
      (sc : Client) (sdh : Headers) (hcl : ℕ) (list : Option J.Json) (a : Acs J.Json) (p : Proxy)
      → RedirectedExtends p (acs_redirect_answer J w sc sdh hcl list a p)
  unfolding acs_redirect_answer
  acs_redirect_answer-Extends sc sdh hcl list a p =
      if_both (RedirectedExtends p) (atoi sdh.httpcode == 200)
        (redirect_body-Extends sc _ _ sc.readbody hcl list a p) (same p)

  abbrev CalledExtends : Proxy → Called → Type 0
  CalledExtends p r = Extends p r.1

  with_user-Extends :
      (user : Option Headers) (x : Dancer) (p : Proxy) (f : Headers → Called)
      → ((sdh : Headers) → CalledExtends p (f sdh))
      → CalledExtends p (with_user user x p f)
  with_user-Extends none x p f h = same p
  with_user-Extends (some sdh) x p f h = h sdh

  push_callback-Extends :
      (c : Callback) (shcl hcl : ℕ) (x : Dancer) (p : Proxy)
      → CalledExtends p (push_callback c shcl hcl x p)
  unfolding push_callback
  push_callback-Extends initial_answer shcl hcl (a, list) p =
      with_user-Extends (p.client shcl).user (a, list) p
        (λ sdh. initial_called list (acs_initial_answer J w sdh hcl a p))
        (λ sdh. acs_initial_answer-Extends sdh hcl a p)
  push_callback-Extends redirect_answer shcl hcl (a, list) p =
      with_user-Extends (p.client shcl).user (a, list) p
        (λ sdh. redirect_called (acs_redirect_answer J w (p.client shcl) sdh hcl list a p))
        (λ sdh. acs_redirect_answer-Extends (p.client shcl) sdh hcl list a p)

  -- The callbacks of the dance fulfil what the queues ask of a callback.
  pub push_callback-Adds : Adds push_callback
  push_callback-Adds = record {
    added = λ c s h a p. (push_callback-Extends c s h a p).0;
    adds = λ c s h a p. (push_callback-Extends c s h a p).1;
    keeps = λ c s h a p. (push_callback-Extends c s h a p).2;
  }
