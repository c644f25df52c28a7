-- ===== src/Acs/Runs.antt =====
-- The calls of server/acs.c from the rest of djb (server/djb.h), in any order: requests to its API,
-- the NET from a rendezvous, the callbacks of the two requests of a dance, and requests for progress
-- that go on after their wait; acs_init before them and acs_exit after them.
use jumpbox.Base.{ℕ, Option, none, List, [], ◌∷◌, txt, arith}
use jumpbox.Http.{Client, Headers, djb_ok}
use jumpbox.Jansson.{Jansson}
use jumpbox.Proxy.Queues.{Proxy}
use jumpbox.Acs.State.{Acs, World, acs_init, acs_sitdown}
use jumpbox.Acs.Net.{acs_set_net}
use jumpbox.Acs.Dance.{acs_initial_answer, acs_redirect_answer}
use jumpbox.Acs.Progress.{acs_handle, progress_wake, acs_exit}
use jumpbox.Acs.Locks.{AtRest, said, acs_set_net-AtRest, acs_sitdown-AtRest}
use jumpbox.Acs.Locks.Handlers.{
  acs_handle-AtRest, acs_initial_answer-AtRest, acs_redirect_answer-AtRest, progress_wake-AtRest,
}

module _ (J : Jansson) where
  -- A call, with what it takes from outside and the queues as they are then.
  pub data Call : Type 0 where
    handles : World → ℕ → Client → Proxy → Call
    net_set : World → Option J.Json → Call
    initial_answered : World → Headers → ℕ → Proxy → Call
    redirect_answered : World → Client → Headers → ℕ → Option J.Json → Proxy → Call
    wakes : World → ℕ → Call

  unfoldable pub call : Call → Acs J.Json → Acs J.Json
  call (handles w hcl c p) a = (acs_handle J w hcl c a p).0
  call (net_set w net) a = (acs_set_net J w net a).0
  call (initial_answered w dh hcl p) a = (acs_initial_answer J w dh hcl a p).0
  call (redirect_answered w c dh hcl list p) a = (acs_redirect_answer J w c dh hcl list a p).0
  call (wakes w hcl) a = (progress_wake J w hcl a).0

  unfoldable pub calls : List Call → Acs J.Json → Acs J.Json
  unfolding call
  calls [] a = a
  calls (c ∷ cs) a = calls cs (call c a)

  call-AtRest : (c : Call) (a : Acs J.Json) → AtRest a → AtRest (call c a)
  unfolding call
  call-AtRest (handles w hcl c p) a h = acs_handle-AtRest J w hcl c a p h
  call-AtRest (net_set w net) a h = acs_set_net-AtRest J w net a h
  call-AtRest (initial_answered w dh hcl p) a h = acs_initial_answer-AtRest J w dh hcl a p h
  call-AtRest (redirect_answered w c dh hcl list p) a h =
      acs_redirect_answer-AtRest J w c dh hcl list a p h
  call-AtRest (wakes w hcl) a h = progress_wake-AtRest J w hcl a h

  calls-kept : (cs : List Call) (a : Acs J.Json) → AtRest a → AtRest (calls cs a)
  unfolding calls
  calls-kept [] a h = h
  calls-kept (c ∷ cs) a h = calls-kept cs (call c a) (call-AtRest c a h)

  acs_init-AtRest : (w : World) (a : Acs J.Json) → AtRest a → AtRest (acs_init w a)
  unfolding acs_init
  acs_init-AtRest w a h =
      said J w djb_ok (txt "ACS Dancer Initialized") _
        (record { status_free = h.status_free; dancing_as = h.dancing_as; sound = h.sound })

  acs_exit-AtRest : (w : World) (a : Acs J.Json) → AtRest a → AtRest (acs_exit J w a)
  unfolding acs_exit
  acs_exit-AtRest w a h =
      let k = acs_set_net-AtRest J w none (acs_sitdown a) (acs_sitdown-AtRest a h) in
      ground (arith, k)

  -- After acs_init and any calls in any order, and also after acs_exit behind them, both mutexes are
  -- free, no call has locked a mutex that it held or unlocked one that it did not hold, and none has
  -- taken l_dancing_mutex inside l_status_mutex. Before acs_init both mutexes are free.
  pub calls-AtRest :
      (cs : List Call) (w v : World) (a : Acs J.Json)
      → AtRest a
      → AtRest (calls cs (acs_init w a)) × AtRest (acs_exit J v (calls cs (acs_init w a)))
  calls-AtRest cs w v a h =
      let k = calls-kept cs (acs_init w a) (acs_init-AtRest w a h) in (k, acs_exit-AtRest v _ k)
