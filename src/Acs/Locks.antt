-- ===== src/Acs/Locks.antt =====
-- The mutexes of server/acs.c: which are held before and after each function, and whether one was
-- locked or unlocked wrongly.
pub mod Handlers
use jumpbox.Base.{
  ◌==◌, ℕ, ◌+◌, ◌≡◌, refl, Bool, true, false, Option, none, some, List, Text, arith, Option-cases,
  Bool-cases, inl, inr, if◌then◌else◌, if_both, ltb, leb,
}
use jumpbox.Http.{Client, Headers, Callback, Event, Status}
use jumpbox.Acs.Net.{missing}
use jumpbox.Jansson.{Jansson, object_at}
use jumpbox.Proxy.Queues.{Proxy}
use jumpbox.Acs.State.{
  ticked, lock_status, Acs, World, acs_status, acs_sitdown, acs_keep_running, lock_dancing,
  unlock_dancing,
}
use jumpbox.Acs.Net.{
  string_of, number_of, setup_root, setup_body, refuse_when, when_interval, when_value, checked_net,
  new_net, acs_check_net, acs_set_net, acs_setup, acs_net_string, acs_net_number, acs_when,
}
use jumpbox.Acs.Dance.{
  send, request_from, sent, request_to, slept, wait_for, window_for, returns_true, failed, gives_up,
  bridges_set, decoded, redirect_body, acs_request, acs_initial, acs_redirect, acs_wait,
  acs_initial_answer, acs_redirect_answer,
}
use jumpbox.Acs.Progress.{
  start_dance, dance_with, pop_message, progress_begin, acs_progress, progress_wake, acs_handle,
  acs_exit,
}

-- The status mutex is free, the dancing mutex is held or not as the flag says, and nothing has gone
-- wrong with them.
pub record Holds (dancing : Bool) {Json : Type 0} (a : Acs Json) : Type 0 where
  pub status_free : a.status_held ≡ false
  pub dancing_as : a.dancing_held ≡ dancing
  pub sound : a.broken ≡ false

abbrev pub AtRest : {Json : Type 0} → Acs Json → Type 0
AtRest a = Holds false a

module _ {Json : Type 0} (w : World) where
  pub acs_status-Holds :
      (b : Bool) (s : Status) (text : Text) (a : Acs Json)
      → Holds b a
      → Holds b (acs_status w s text a)
  unfolding acs_status
  acs_status-Holds b s text a h = ground arith

  pub acs_keep_running-AtRest : (a : Acs Json) → AtRest a → AtRest (acs_keep_running w a).0
  unfolding acs_keep_running acs_status acs_sitdown
  acs_keep_running-AtRest a h = ground arith

pub acs_sitdown-AtRest : {Json : Type 0} (a : Acs Json) → AtRest a → AtRest (acs_sitdown a)
unfolding acs_sitdown
acs_sitdown-AtRest a h = ground arith

pub ticked-AtRest : {Json : Type 0} (a : Acs Json) → AtRest a → AtRest (ticked a)
ticked-AtRest a h = ground arith

module _ (J : Jansson) (w : World) where
  pub said : (s : Status) (text : Text) (a : Acs J.Json) → AtRest a → AtRest (acs_status w s text a)
  said s text a h = acs_status-Holds w false s text a h

  -- The state that a function returns beside its result is at rest.
  abbrev pub FirstAtRest : {R : Type 0} → Acs J.Json × R → Type 0
  FirstAtRest r = AtRest r.0

  refuse_when-AtRest :
      (msg : Text) (a : Acs J.Json) → AtRest a → FirstAtRest (refuse_when J w msg a)
  refuse_when-AtRest msg a h = acs_sitdown-AtRest _ (said _ msg a h)

  when_interval-AtRest :
      (when : Text) (r : Option (ℕ × ℕ)) (a : Acs J.Json)
      → AtRest a
      → FirstAtRest (when_interval J w when r a)
  when_interval-AtRest when none a h = refuse_when-AtRest _ a h
  when_interval-AtRest when (some (start, end)) a h =
      let t = ticked-AtRest a h in
      if_both FirstAtRest (ltb (w.now a.tick) start) (refuse_when-AtRest _ _ t)
        (if_both FirstAtRest (leb end (w.now a.tick)) (refuse_when-AtRest _ _ t) (said _ _ _ t))

  when_value-AtRest :
      (o : Option J.Json) (a : Acs J.Json) → AtRest a → FirstAtRest (when_value J w o a)
  when_value-AtRest none a h = said _ _ a h
  when_value-AtRest (some j) a h =
      if_both FirstAtRest (J.is_string j) (when_interval-AtRest _ _ a h) (refuse_when-AtRest _ a h)

  pub acs_when-AtRest : (a : Acs J.Json) → AtRest a → FirstAtRest (acs_when J w a)
  unfolding acs_when
  acs_when-AtRest a h = when_value-AtRest _ a h

  checked_net-Holds :
      (net : J.Json) (r : Acs J.Json × Bool) → Holds true r.0 → Holds true (checked_net J w net r)
  checked_net-Holds net (a, true) h = elim (Option-cases (J.dumps_ascii net)) [
    | inl e ↦ rw e (acs_status-Holds w true _ _ a h)
    | inr (j, e) ↦ rw e (acs_status-Holds w true _ _ _ (acs_status-Holds w true _ _ a h))
  ]
  checked_net-Holds net (a, false) h = ground arith

  new_net-Holds :
      (net : Option J.Json) (a : Acs J.Json) → Holds true a → Holds true (new_net J w net a)
  unfolding acs_check_net
  new_net-Holds none a h = h
  new_net-Holds (some net) a h = checked_net-Holds net _ (
      if_both (λ (r : Acs J.Json × Bool). Holds true r.0) (J.is_object net) h
        (acs_status-Holds w true _ _ a h))

  unlock_dancing-AtRest : (a : Acs J.Json) → Holds true a → AtRest (unlock_dancing a)
  unlock_dancing-AtRest a h = ground arith

  pub acs_set_net-AtRest :
      (net : Option J.Json) (a : Acs J.Json) → AtRest a → FirstAtRest (acs_set_net J w net a)
  unfolding acs_set_net
  acs_set_net-AtRest net a h =
      if_both FirstAtRest a.l_dancing (said _ _ _ (ground arith))
        (unlock_dancing-AtRest _ (new_net-Holds net _ (ground arith)))

  missing-AtRest : (desc : Text) (a : Acs J.Json) → AtRest a → AtRest (missing J w desc a)
  missing-AtRest desc a h = acs_sitdown-AtRest _ (said _ _ a h)

  acs_net_string-AtRest :
      (var desc : Text) (a : Acs J.Json) → AtRest a → FirstAtRest (acs_net_string J w var desc a)
  unfolding acs_net_string
  acs_net_string-AtRest var desc a h = go (object_at J a.l_net var)
    where
      go : (o : Option J.Json) → FirstAtRest (string_of J w o desc a)
      go none = missing-AtRest desc a h
      go (some j) = if_both FirstAtRest (J.is_string j) h (missing-AtRest desc a h)

  acs_net_number-AtRest :
      (var desc : Text) (a : Acs J.Json) → AtRest a → FirstAtRest (acs_net_number J w var desc a)
  unfolding acs_net_number
  acs_net_number-AtRest var desc a h = go (object_at J a.l_net var)
    where
      go : (o : Option J.Json) → FirstAtRest (number_of J w o desc a)
      go none = missing-AtRest desc a h
      go (some j) = if_both FirstAtRest (J.is_number j) h (missing-AtRest desc a h)

  abbrev pub DancedAtRest : Acs J.Json × Proxy × Bool → Type 0
  DancedAtRest r = AtRest r.0

  request_from-AtRest :
      (cb : Callback) (host uri : Text) (cl : Option ℕ) (a : Acs J.Json) (p : Proxy)
      → AtRest a
      → DancedAtRest (request_from J w cb host uri cl a p)
  request_from-AtRest cb host uri none a p h = said _ _ a h
  request_from-AtRest cb host uri (some hcl) a p h =
      if_both DancedAtRest (w.calloc_ok a.tick) (ticked-AtRest _ (ticked-AtRest a h))
        (said _ _ _ (ticked-AtRest a h))

  acs_request-AtRest :
      (cb : Callback) (host uri : Text) (a : Acs J.Json) (p : Proxy)
      → AtRest a
      → DancedAtRest (acs_request J w cb host uri a p)
  unfolding acs_request
  acs_request-AtRest cb host uri a p h =
      let k = acs_keep_running-AtRest w a h in
      if_both DancedAtRest (acs_keep_running w a).1
        (request_from-AtRest cb host uri _ _ p (ticked-AtRest _ k)) k

  sent-AtRest :
      (msg : Text) (r : Acs J.Json × Proxy × Bool) → DancedAtRest r → FirstAtRest (sent J w msg r)
  sent-AtRest msg (a, p, true) h = said _ msg a h
  sent-AtRest msg (a, p, false) h = acs_sitdown-AtRest a h

  request_to-AtRest :
      (cb : Callback) (msg : Text) (r : Acs J.Json × Option Text) (p : Proxy)
      → FirstAtRest r
      → FirstAtRest (request_to J w cb msg r p)
  request_to-AtRest cb msg (a, none) p h = h
  request_to-AtRest cb msg (a, some host) p h =
      sent-AtRest msg _ (acs_request-AtRest cb host _ a p h)

  pub acs_initial-AtRest :
      (a : Acs J.Json) (p : Proxy) → AtRest a → FirstAtRest (acs_initial J w a p)
  unfolding acs_initial
  acs_initial-AtRest a p h = request_to-AtRest _ _ _ p (acs_net_string-AtRest _ _ a h)

  acs_redirect-AtRest : (a : Acs J.Json) (p : Proxy) → AtRest a → FirstAtRest (acs_redirect J w a p)
  unfolding acs_redirect
  acs_redirect-AtRest a p h = request_to-AtRest _ _ _ p (acs_net_string-AtRest _ _ a h)

  slept-AtRest : (b : Bool) (a : Acs J.Json) (p : Proxy) → AtRest a → FirstAtRest (slept J w b a p)
  slept-AtRest false a p h = said _ _ a h
  slept-AtRest true a p h =
      let k = acs_keep_running-AtRest w _ (said _ _ a h) in
      if_both FirstAtRest (acs_keep_running w _).1 (acs_redirect-AtRest _ p k) k

  wait_for-AtRest :
      (window : ℕ) (r : Acs J.Json × Option ℕ) (p : Proxy)
      → FirstAtRest r
      → FirstAtRest (wait_for J w window r p)
  wait_for-AtRest window (a, none) p h = h
  wait_for-AtRest window (a, some wait) p h =
      let t = ticked-AtRest a h in
      if_both FirstAtRest (window == 0) t (slept-AtRest _ _ p (ticked-AtRest _ (said _ _ _ t)))

  window_for-AtRest :
      (r : Acs J.Json × Option ℕ) (p : Proxy) → FirstAtRest r → FirstAtRest (window_for J w r p)
  window_for-AtRest (a, none) p h = h
  window_for-AtRest (a, some window) p h =
      wait_for-AtRest window _ p (acs_net_number-AtRest _ _ a h)

  pub acs_wait-AtRest : (a : Acs J.Json) (p : Proxy) → AtRest a → FirstAtRest (acs_wait J w a p)
  unfolding acs_wait
  acs_wait-AtRest a p h = window_for-AtRest _ p (acs_net_number-AtRest _ _ a h)
