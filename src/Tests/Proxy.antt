-- ===== src/Tests/Proxy.antt =====
-- The theorems on the queues at one browser, one puller and one pusher.
use jumpbox.Base.{
  strncaseeq, Text, Option, ℕ, ◌+◌, ◌≡◌, refl, true, none, some, List, [], ◌∷◌, txt, arith, inl,
  inr, if◌then◌else◌, is_empty,
}
use jumpbox.Http.{Headers, done, expire, force, error}
use jumpbox.SeqNo.{print_seqno, scan_seqno}
use jumpbox.SeqNo.RoundTrip.{scan_seqno-print_seqno}
use jumpbox.Proxy.Queues.{Proxy, find_req, find_phcl, djb_close}
use jumpbox.Proxy.Forward.{djb_handle_forward}
use jumpbox.Proxy.Push.{djb_find_req_dh, push_normal, djb_push}
use jumpbox.Proxy.Workers.{System, Action, posts, pulls, takes, serves, pushes, closes, run}
use jumpbox.Proxy.Conserve.{entered, left, owned, sum_run, run-conserves}
use jumpbox.Proxy.Cycle.{AtRest, run-answers}
use jumpbox.Proxy.Pending.{Steps, pending, run-refines}
use jumpbox.Proxy.Drain.{rounds, run-drains}
use jumpbox.Proxy.Find.{first, fits?, handed?, finds-first}
use jumpbox.Proxy.Match.{
  paired, sent_seqno, djb_find_req_dh-djb_handle_forward, djb_close-djb_handle_forward,
}
use jumpbox.Proxy.Body.{djb_bodyfwd_done, answers, push_normal-answers}
use jumpbox.Proxy.Ends.{
  is_complete, dones, frees, forwards, djb_find_req_dh-none, push_normal-ends, djb_push-refused,
}
use jumpbox.Acs.Callbacks.{push_callback, push_callback-Adds}
use jumpbox.Acs.State.{Acs}
use jumpbox.Jansson.{Jansson}
use jumpbox.Tests.Fixtures.{
  clients, Json, jansson, net, world, in_dance, idle_proxy, methodname, no_headers, req,
}

abbrev J : Jansson
J = jansson (λ text. some net)

abbrev answer : Headers
answer = record no_headers { httpcode = txt "200"; httptext = txt "OK"; seqno = print_seqno 10 7 }

-- The browser's request is pulled, its puller closes, it is pulled again, and answered, while a
-- dance goes on.
abbrev schedule : List Action
schedule =
    posts true 1
    ∷ takes
    ∷ pulls true 2
    ∷ serves 0
    ∷ closes 2
    ∷ takes
    ∷ pulls true 4
    ∷ serves 0
    ∷ pushes 3 answer
    ∷ []

abbrev quiet : System (Acs Json × Option Json)
quiet = record { proxy = idle_proxy; held = []; idle = 1; state = (in_dance, none) }

abbrev in_all : (ℕ → Action → System (Acs Json × Option Json) → ℕ) → ℕ
in_all f =
    sum_run methodname (push_callback J world) (push_callback-Adds J world) (f 1) schedule quiet

run-conserves_example :
    owned methodname
        (push_callback J world)
        (push_callback-Adds J world)
        1
        (run methodname (push_callback J world) schedule quiet)
      + in_all (left methodname (push_callback J world) (push_callback-Adds J world))
    ≡ owned methodname (push_callback J world) (push_callback-Adds J world) 1 quiet
      + in_all (entered methodname (push_callback J world) (push_callback-Adds J world))
run-conserves_example =
    run-conserves methodname (push_callback J world) (push_callback-Adds J world) 1 schedule quiet

reads : scan_seqno (print_seqno 10 7) ≡ some (10, 7)
reads = (scan_seqno-print_seqno 10 7).1 (omega arith, omega arith)

djb_find_req_dh-djb_handle_forward_example :
    djb_find_req_dh 3 answer (djb_handle_forward methodname (req 1) (req 2) idle_proxy) ≡ (
      record (djb_handle_forward methodname (req 1) (req 2) idle_proxy) { proxy_out = [] },
      some (paired (req 1) (req 2) idle_proxy),
    )
unfolding djb_handle_forward sent_seqno is_empty txt
djb_find_req_dh-djb_handle_forward_example =
    djb_find_req_dh-djb_handle_forward methodname (req 1) (req 2) idle_proxy 3 answer refl
      (omega arith) (omega arith) refl refl refl refl

djb_close-djb_handle_forward_example :
    djb_close 2 (djb_handle_forward methodname (req 1) (req 2) idle_proxy)
    ≡ record (djb_handle_forward methodname (req 1) (req 2) idle_proxy) {
      proxy_out = [];
      proxy_new = paired (req 1) (req 2) idle_proxy ∷ [];
    }
djb_close-djb_handle_forward_example =
    djb_close-djb_handle_forward methodname (req 1) (req 2) idle_proxy refl refl

-- Client 1 waits for its answer.
abbrev waiting : Proxy
waiting = record idle_proxy { proxy_out = req 1 ∷ [] }

djb_find_req_dh-none_example :
    let (q, found) = djb_find_req_dh 3 answer idle_proxy in
    let code : ℕ = if is_complete answer then 404 else 504 in
    (found ≡ none)
    × ((msg : Text) × (q ≡ record idle_proxy {
      log = done 3 ∷ expire 3 force ∷ error 3 code msg ∷ idle_proxy.log;
    }))
djb_find_req_dh-none_example = djb_find_req_dh-none 3 answer idle_proxy (inr (rw reads refl))

push_normal-ends_example :
    let q = (push_normal 3 answer (req 1) idle_proxy).0 in
    (dones 3 q.log ≡ 1) × (dones 1 q.log ≡ 1) × (forwards 3 1 q.log ≡ 0) × (frees 1 q.log ≡ 1)
unfolding dones frees forwards
push_normal-ends_example = push_normal-ends 3 answer (req 1) idle_proxy (ground arith)

djb_push-refused_example :
    dones 3 (djb_push (push_callback J world) 3 no_headers (in_dance, none) idle_proxy).1.log ≡ 2
unfolding dones is_empty
djb_push-refused_example =
    djb_push-refused (push_callback J world) 3 no_headers (in_dance, none) idle_proxy (inl refl)

-- The pusher has a body to forward.
abbrev pushing : Proxy
pushing = record idle_proxy {
  client = λ a. record (clients a) { uri = txt "/push/"; content_length = 12 };
}

push_normal-answers_example :
    let q = (push_normal 3 answer (req 1) pushing).0 in
    let r = djb_bodyfwd_done 3 q in (answers 3 r.log ≡ 1) × (answers 1 r.log ≡ 0)
unfolding strncaseeq txt answers
push_normal-answers_example = push_normal-answers 3 answer (req 1) pushing (ground arith) refl

-- The browser waits twice, three pullers have come, and a worker is idle.
abbrev busy : System (Acs Json × Option Json)
busy = record {
  proxy = record idle_proxy {
    proxy_new = req 1 ∷ req 1 ∷ [];
    api_pull = req 2 ∷ req 4 ∷ req 6 ∷ [];
  };
  held = [];
  idle = 1;
  state = (in_dance, none);
}

run-drains_example :
    let q = run methodname (push_callback J world) (rounds (req 1 ∷ req 1 ∷ [])) busy in
    (q.proxy.proxy_new ≡ [])
    × (q.proxy.proxy_out ≡ record (req 1) { phcl_id = 22 } ∷ record (req 1) { phcl_id = 24 } ∷ [])
    × (q.proxy.api_pull ≡ req 6 ∷ [])
    × (q.held ≡ [])
    × (q.idle ≡ 1)
run-drains_example = run-drains methodname (push_callback J world) 0 busy refl refl refl

finds-first_example :
    let l = req 1 ∷ record (req 3) { phcl_id = 22 } ∷ [] in
    (find_req clients 10 7 l ≡ first (fits? clients 10 7) l)
    × (find_phcl 22 l ≡ first (handed? 22) l)
finds-first_example = finds-first clients 10 7 22 (req 1 ∷ record (req 3) { phcl_id = 22 } ∷ [])

-- The browser's client has its headers.
abbrev known : System (Acs Json × Option Json)
known = record quiet {
  proxy = record idle_proxy { client = λ a. record (clients a) { user = some no_headers } };
}

run-answers_example :
    let acts = posts true 1 ∷ pulls true 2 ∷ takes ∷ serves 0 ∷ pushes 3 answer ∷ [] in
    let q = run methodname (push_callback J world) acts known in
    AtRest methodname (push_callback J world) 0 q
    × (dones 1 q.proxy.log ≡ 1)
    × (forwards 3 1 q.proxy.log ≡ 0)
unfolding dones forwards is_empty txt
run-answers_example =
    run-answers methodname (push_callback J world) 0 1 2 3 answer no_headers known
      (refl, refl, refl, refl, refl) (λ h. omega (arith, h)) (λ h. omega (arith, h)) refl refl refl
      refl refl (omega arith) (omega arith) refl refl refl

run-refines_example :
    Steps methodname
      (push_callback J world)
      (push_callback-Adds J world)
      schedule
      quiet
      (pending methodname (push_callback J world) (push_callback-Adds J world) quiet)
      (pending methodname
        (push_callback J world)
        (push_callback-Adds J world)
        (run methodname (push_callback J world) schedule quiet))
run-refines_example =
    run-refines methodname (push_callback J world) (push_callback-Adds J world) schedule quiet
