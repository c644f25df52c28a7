-- ===== src/Acs/Progress.antt =====
-- acs_progress, acs_handle and acs_exit (server/acs.c). acs_progress waits for a message with
-- l_status_mutex released, so it is two functions: other threads run between them.
use jumpbox.Base.{
  ℕ, Bool, true, false, not, ◌&&◌, Option, none, some, List, [], ◌∷◌, Text, txt, drop, strcaseeq,
  if◌then◌else◌,
}
use jumpbox.Http.{Client, Event, Status, djb_err, djb_ok}
use jumpbox.Jansson.{Jansson}
use jumpbox.Reply.{djb_error, djb_result}
use jumpbox.Proxy.Queues.{Proxy}
use jumpbox.Acs.State.{
  Acs, World, lock_status, unlock_status, lock_dancing, unlock_dancing, acs_status, acs_sitdown,
}
use jumpbox.Acs.Net.{acs_set_net, acs_setup, acs_when}
use jumpbox.Acs.Dance.{acs_initial}

abbrev pub is_ok : Status → Bool
is_ok djb_ok = true
is_ok _ = false

module _ (J : Jansson) (w : World) where
  -- The dance starts if acs_when allows it.
  abbrev pub start_dance : Acs J.Json × Bool → Proxy → Acs J.Json × Proxy
  start_dance (a, true) p = acs_initial J w (acs_status w djb_ok (txt "Starting to dance...") a) p
  start_dance (a, false) p = (a, p)

  -- Both mutexes are held on entry and released.
  abbrev pub dance_with : Option J.Json → Acs J.Json → Proxy → Acs J.Json × Proxy
  dance_with none a p = (
    acs_status w djb_err (txt "No NET setup thus can't dance") (unlock_dancing (unlock_status a)),
    p,
  )
  dance_with (some net) a p =
      start_dance (acs_when J w (unlock_dancing (unlock_status (record a { l_dancing = true })))) p

  -- Up to the look at the queue of messages, where l_status_mutex is held.
  unfoldable pub progress_begin : Acs J.Json → Proxy → Acs J.Json × Proxy
  unfolding acs_when acs_initial
  progress_begin a p =
      let b = lock_status (lock_dancing a) in
      if not b.l_dancing && is_ok b.l_status
      then (let (c, q) = dance_with b.l_net b p in (lock_status c, q))
      else (unlock_dancing b, p)

  -- list_pop, with l_status_mutex held; `else_reply` is for an empty queue.
  abbrev pub pop_message :
      ℕ → List (Status × Text) → Option (List Event) → Acs J.Json → Acs J.Json × Option (List Event)
  pop_message hcl [] else_reply a = (unlock_status a, else_reply)
  pop_message hcl ((status, text) ∷ rest) else_reply a =
      (unlock_status (record a { l_messages = rest }), some (djb_result J hcl status text))

  -- The first look: `none` means that the request waits in cond_wait, which releases the mutex.
  unfoldable pub acs_progress : ℕ → Acs J.Json → Proxy → Acs J.Json × Proxy × Option (List Event)
  unfolding progress_begin
  acs_progress hcl a p =
      let (b, q) = progress_begin a p in
      let (c, reply) = pop_message hcl b.l_messages none b in (c, q, reply)

  -- After cond_wait.
  unfoldable pub progress_wake : ℕ → Acs J.Json → Acs J.Json × Option (List Event)
  progress_wake hcl a =
      let b = lock_status a in
      pop_message hcl b.l_messages (some (djb_result J hcl b.l_status b.l_message)) b

  -- The answer, unless the request waits, and whether the request is handled.
  abbrev Answered : Type 0
  Answered = Acs J.Json × Proxy × Option (List Event) × Bool

  unfoldable pub acs_handle : ℕ → Client → Acs J.Json → Proxy → Answered
  unfolding acs_setup acs_progress
  acs_handle hcl c a p =
      let uri = drop 4 c.uri in
      if strcaseeq uri (txt "/setup/")
      then (let (b, reply, served) = acs_setup J w hcl c a in (b, p, some reply, served))
      else (if strcaseeq uri (txt "/progress/")
          then (let (b, q, reply) = acs_progress hcl a p in (b, q, reply, true))
          else (a, p, some (djb_error hcl 404 (txt "No such DJB API request (ACS)")), true))

  -- The messages are dropped, and the mutexes, which are destroyed, are free.
  unfoldable pub acs_exit : Acs J.Json → Acs J.Json
  unfolding acs_set_net
  acs_exit a =
      let b = (acs_set_net J w none (acs_sitdown a)).0 in
      record (unlock_status (lock_status b)) { l_messages = [] }
