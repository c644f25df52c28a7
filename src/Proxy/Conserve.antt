-- ===== src/Proxy/Conserve.antt =====
-- The requests of each client, counted over every interleaving of handlers, workers and closing
-- connections (server/djb.c): those that enter, those that djb has, and those that leave.
use jumpbox.Base.{
  ℕ, zero, suc, ◌+◌, ◌≡◌, refl, ap, Bool, true, false, Option, none, some, List, [], ◌∷◌, ◌++◌,
  Text, arith, ◌==◌, if◌then◌else◌, count_if-append,
}
use jumpbox.Http.{Headers, Callback, Method}
use jumpbox.Proxy.Queues.{Req, Proxy, djb_proxy_add, djb_pull_post}
use jumpbox.Proxy.Push.{djb_find_req_dh, push_internal, push_as, push_found, push_at, djb_push}
use jumpbox.Proxy.Workers.{
  System, Action, posts, pulls, takes, serves, pushes, closes, pick, take_new, serve, step, run,
}
use jumpbox.Proxy.Ledger.{
  is_for, one, one_for, entries, queued, handed, entries-snoc, entries-pick, queued-djb_close,
  queued-djb_handle_forward, djb_find_req_dh-queues, push_normal-queues,
}

-- What the queues need of a callback: it leaves `proxy_out` alone and only adds to `proxy_new`.
pub record Adds {X : Type 0} (callback : Callback → ℕ → ℕ → X → Proxy → X × Proxy × Bool)
    : Type 0 where
  pub added : Callback → ℕ → ℕ → X → Proxy → List Req
  pub adds :
      (c : Callback) (a b : ℕ) (x : X) (p : Proxy)
      → (callback c a b x p).1.proxy_new ≡ p.proxy_new ++ added c a b x p
  pub keeps :
      (c : Callback) (a b : ℕ) (x : X) (p : Proxy) → (callback c a b x p).1.proxy_out ≡ p.proxy_out

module _ {X : Type 0} (methodname : Method → Text)
    (callback : Callback → ℕ → ℕ → X → Proxy → X × Proxy × Bool) (law : Adds callback) where
  -- Where a request that djb_push found goes: `gone` is whether its entry is given up, `fresh`
  -- lists what its callback has queued.
  abbrev pub gone : Req → Option Callback → ℕ → X → Proxy → Bool
  gone r none hcl x p = true
  gone r (some cb) hcl x p = (callback cb hcl r.hcl x p).2

  abbrev pub fresh : Req → Option Callback → ℕ → X → Proxy → List Req
  fresh r none hcl x p = []
  fresh r (some cb) hcl x p = law.added cb hcl r.hcl x p

  abbrev pub callback_of : Option Headers → Option Callback
  callback_of none = none
  callback_of (some dh) = dh.push

  queued-push_internal :
      (a hcl : ℕ) (r : Req) (xs : List Req) (p : Proxy) (res : X × Proxy × Bool)
      → res.1.proxy_new ≡ p.proxy_new ++ xs
      → res.1.proxy_out ≡ p.proxy_out
      → queued a (push_internal callback hcl r res).1
        ≡ queued a p + entries a xs + (if res.2 then 0 else one (is_for a r))
  queued-push_internal a hcl r xs p (x, q, true) h k =
      ground (arith, count_if-append (is_for a) p.proxy_new xs)
  queued-push_internal a hcl r xs p (x, q, false) h k =
      ground (arith, count_if-append (is_for a) p.proxy_new xs, entries-snoc a q.proxy_out r)

  queued-push_as :
      (a hcl : ℕ) (dh : Headers) (r : Req) (cb : Option Callback) (x : X) (p : Proxy)
      → queued a (push_as callback hcl dh r cb x p).1
        ≡ queued a p
          + entries a (fresh r cb hcl x p)
          + (if gone r cb hcl x p then 0 else one (is_for a r))
  queued-push_as a hcl dh r none x p = ground (arith, push_normal-queues hcl dh r p)
  queued-push_as a hcl dh r (some cb) x p =
      queued-push_internal a hcl r (law.added cb hcl r.hcl x p) p (callback cb hcl r.hcl x p)
        (law.adds cb hcl r.hcl x p) (law.keeps cb hcl r.hcl x p)

  push_enters : ℕ → ℕ → X → Proxy × Option Req → ℕ
  push_enters a hcl x (q, none) = 0
  push_enters a hcl x (q, some r) = entries a (fresh r (callback_of (q.client r.hcl).user) hcl x q)

  push_leaves : ℕ → ℕ → X → Proxy × Option Req → ℕ
  push_leaves a hcl x (q, none) = 0
  push_leaves a hcl x (q, some r) =
      if gone r (callback_of (q.client r.hcl).user) hcl x q then one (is_for a r) else 0

  unfoldable pub serve_leaves : ℕ → Option Req × List Req → List Req → Proxy → ℕ
  serve_leaves a (none, rest) pull p = 0
  serve_leaves a (some pr, rest) [] p = 0
  serve_leaves a (some pr, rest) (ar ∷ pull) p = if handed pr ar p then 0 else one (is_for a pr)

  -- How often a request enters the queues in a step: when it is posted, or queued by a callback.
  unfoldable pub entered : ℕ → Action → System X → ℕ
  unfolding push_enters
  entered a (posts ok hcl) s = if ok then one (hcl == a) else 0
  entered a (pushes hcl dh) s = push_enters a hcl s.state (djb_find_req_dh hcl dh s.proxy)
  entered a _ s = 0

  -- How often it leaves: by the push that answers it, or in front of a puller that is gone.
  unfoldable pub left : ℕ → Action → System X → ℕ
  unfolding push_leaves serve_leaves
  left a (serves i) s = serve_leaves a (pick i s.held) s.proxy.api_pull s.proxy
  left a (pushes hcl dh) s = push_leaves a hcl s.state (djb_find_req_dh hcl dh s.proxy)
  left a _ s = 0

  -- The places where a request can be: the two queues, and the hands of a worker.
  abbrev pub owned : ℕ → System X → ℕ
  owned a s = queued a s.proxy + entries a s.held

  pub owned-push_found :
      (a hcl : ℕ) (dh : Headers) (r : Req) (user : Option Headers) (x : X) (q : Proxy)
      → queued a (push_found callback hcl dh r user x q).1
          + (if gone r (callback_of user) hcl x q then one (is_for a r) else 0)
        ≡ queued a q + one (is_for a r) + entries a (fresh r (callback_of user) hcl x q)
  owned-push_found a hcl dh r none x q = omega arith
  owned-push_found a hcl dh r (some pdh) x q =
      ground (arith, queued-push_as a hcl dh r pdh.push x q)

  owned-push_at :
      (a hcl : ℕ) (dh : Headers) (x : X) (q : Proxy) (found : Option Req)
      → queued a (push_at callback hcl dh x (q, found)).1 + push_leaves a hcl x (q, found)
        ≡ queued a q + one_for a found + push_enters a hcl x (q, found)
  unfolding push_leaves push_enters
  owned-push_at a hcl dh x q none = omega arith
  owned-push_at a hcl dh x q (some r) =
      omega (arith, owned-push_found a hcl dh r (q.client r.hcl).user x q)

  pub owned-take_new :
      (a k : ℕ) (new : List Req) (s : System X)
      → s.proxy.proxy_new ≡ new
      → owned a (take_new methodname callback k new s) ≡ owned a s
  owned-take_new a zero new s e = refl
  owned-take_new a (suc k) [] s e = refl
  owned-take_new a (suc k) (r ∷ rs) s e = ground arith

  pub owned-serve :
      (a : ℕ) (found : Option Req) (rest pull : List Req) (s : System X)
      → entries a s.held ≡ one_for a found + entries a rest
      → owned a (serve methodname callback (found, rest) pull s)
          + serve_leaves a (found, rest) pull s.proxy
        ≡ owned a s
  unfolding serve_leaves
  owned-serve a none rest pull s e = omega arith
  owned-serve a (some pr) rest [] s e = omega arith
  owned-serve a (some pr) rest (ar ∷ pull) s e =
      ground
        (arith, queued-djb_handle_forward methodname a pr ar (record s.proxy { api_pull = pull }))

  pub owned-step :
      (a : ℕ) (act : Action) (s : System X)
      → owned a (step methodname callback act s) + left a act s ≡ owned a s + entered a act s
  unfolding step entered left djb_proxy_add djb_pull_post djb_push
  owned-step a (posts ok hcl) s =
      ground (arith, entries-snoc a s.proxy.proxy_new (record { hcl = hcl; phcl_id = 0 }))
  owned-step a (pulls ok hcl) s = ground arith
  owned-step a takes s = omega (arith, owned-take_new a s.idle s.proxy.proxy_new s refl)
  owned-step a (serves i) s =
      let (found, rest) = pick i s.held in
      omega (arith, owned-serve a found rest s.proxy.api_pull s (entries-pick a i s.held))
  owned-step a (pushes hcl dh) s =
      let found = djb_find_req_dh hcl dh s.proxy in
      let kept = djb_find_req_dh-queues a hcl dh s.proxy in
      omega (arith, owned-push_at a hcl dh s.state found.0 found.1, ap (entries a) kept.0, kept.2)
  owned-step a (closes hcl) s = omega (arith, queued-djb_close a hcl s.proxy)

  abbrev pub sum_run : (Action → System X → ℕ) → List Action → System X → ℕ
  sum_run f [] s = 0
  sum_run f (act ∷ acts) s = f act s + sum_run f acts (step methodname callback act s)

  -- No request is lost or duplicated, in any order of the handlers, the workers and the closing of
  -- connections: for each client, the entries in the two queues and in the workers' hands, with
  -- those that left (answered by a push, or handed to a puller that was gone or could not take
  -- them), are those that were there, with those that entered. The callbacks only add to `proxy_new`
  -- and leave `proxy_out` alone.
  pub run-conserves :
      (a : ℕ) (acts : List Action) (s : System X)
      → owned a (run methodname callback acts s) + sum_run (left a) acts s
        ≡ owned a s + sum_run (entered a) acts s
  unfolding run
  run-conserves a [] s = refl
  run-conserves a (act ∷ acts) s =
      omega (arith, owned-step a act s, run-conserves a acts (step methodname callback act s))
