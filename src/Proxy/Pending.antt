-- ===== src/Proxy/Pending.antt =====
-- What the queues and the workers of server/djb.c promise, without the order and the place of the
-- requests: a bag of those that wait for an answer.
use mathlib.Core.Quot
use mathlib.Core.Quot.{Quot, Quot-set}
use jumpbox.Base.{
  ℕ, ◌+◌, ◌≡◌, refl, ap, Bool, true, false, Bool-cases, inl, inr, Option, none, some, List, [], ◌∷◌,
  ◌++◌, Text, arith, count_if-append,
}
use jumpbox.Http.{Headers, Callback, Method}
use jumpbox.Proxy.Queues.{Req, Proxy, new_req}
use jumpbox.Proxy.Push.{djb_find_req_dh, push_found, push_at, djb_push}
use jumpbox.Proxy.Workers.{
  System, Action, posts, pulls, takes, serves, pushes, closes, pick, serve, pushed, step, run,
}
use jumpbox.Proxy.Ledger.{is_for, one_for, entries, entries-pick, handed, djb_find_req_dh-queues}
use jumpbox.Proxy.Conserve.{
  Adds, gone, fresh, callback_of, owned, owned-step, owned-take_new, owned-serve, owned-push_found,
  entered, left, serve_leaves,
}

-- The same number of entries for each client.
abbrev pub SameRequests : List Req → List Req → Type 0
SameRequests xs ys = (a : ℕ) → entries a xs ≡ entries a ys

abbrev pub Bag : Type 0
Bag = Quot SameRequests

abbrev pub bag : List Req → Bag
bag = Quot.mk

unfoldable pub add_all : List Req → Bag → Bag
add_all rs =
    Quot.lift Quot-set (λ xs. bag (rs ++ xs))
      λ xs ys h.
        Quot.sound λ a.
          omega (arith, count_if-append (is_for a) rs xs, count_if-append (is_for a) rs ys, h a)

abbrev pub add : Req → Bag → Bag
add r = add_all (r ∷ [])

module _ {X : Type 0} (methodname : Method → Text)
    (callback : Callback → ℕ → ℕ → X → Proxy → X × Proxy × Bool) (law : Adds callback) where
  -- Whether a push gives up the entry of the request that it found, and what the callback queues.
  abbrev releases : ℕ → Req → System X → Proxy → Bool
  releases hcl r s q =
      gone methodname callback law r (callback_of methodname callback law (q.client r.hcl).user) hcl
        s.state q

  abbrev queues : ℕ → Req → System X → Proxy → List Req
  queues hcl r s q =
      fresh methodname callback law r (callback_of methodname callback law (q.client r.hcl).user)
        hcl s.state q

  -- The steps that are promised. What the system does is told by the requests that the workers
  -- hold, by djb_find_req_dh, by whether a request can be handed to the puller, and by the
  -- callback: a request comes when it is posted, or when the callback queues it; it goes when a
  -- worker cannot hand it to its puller, or when a push gives it up.
  pub data Step : Action → System X → Bag → Bag → Type 0 where
    comes :
        {hcl : ℕ} {s : System X} {x y : Bag} → y ≡ add (new_req hcl) x → Step (posts true hcl) s x y
    refused : {hcl : ℕ} {s : System X} {x y : Bag} → x ≡ y → Step (posts false hcl) s x y
    pulled : {ok : Bool} {hcl : ℕ} {s : System X} {x y : Bag} → x ≡ y → Step (pulls ok hcl) s x y
    taken : {s : System X} {x y : Bag} → x ≡ y → Step takes s x y
    no_request :
        {i : ℕ} {s : System X} {x y : Bag}
        → (pick i s.held).0 ≡ none
        → x ≡ y
        → Step (serves i) s x y
    no_puller :
        {i : ℕ} {s : System X} {x y : Bag} → s.proxy.api_pull ≡ [] → x ≡ y → Step (serves i) s x y
    hands_out :
        {i : ℕ} {s : System X} {x y : Bag} (r ar : Req) (pull : List Req)
        → (pick i s.held).0 ≡ some r
        → s.proxy.api_pull ≡ ar ∷ pull
        → handed r ar s.proxy ≡ true
        → x ≡ y
        → Step (serves i) s x y
    dropped :
        {i : ℕ} {s : System X} {x y : Bag} (r ar : Req) (pull : List Req)
        → (pick i s.held).0 ≡ some r
        → s.proxy.api_pull ≡ ar ∷ pull
        → handed r ar s.proxy ≡ false
        → x ≡ add r y
        → Step (serves i) s x y
    unknown :
        {hcl : ℕ} {dh : Headers} {s : System X} {x y : Bag}
        → (djb_find_req_dh hcl dh s.proxy).1 ≡ none
        → x ≡ y
        → Step (pushes hcl dh) s x y
    replied :
        {hcl : ℕ} {dh : Headers} {s : System X} {x y : Bag} (r : Req) (q : Proxy) (z : Bag)
        → djb_find_req_dh hcl dh s.proxy ≡ (q, some r)
        → releases hcl r s q ≡ true
        → x ≡ add r z
        → y ≡ add_all (queues hcl r s q) z
        → Step (pushes hcl dh) s x y
    kept :
        {hcl : ℕ} {dh : Headers} {s : System X} {x y : Bag} (r : Req) (q : Proxy)
        → djb_find_req_dh hcl dh s.proxy ≡ (q, some r)
        → releases hcl r s q ≡ false
        → y ≡ add_all (queues hcl r s q) x
        → Step (pushes hcl dh) s x y
    closed : {hcl : ℕ} {s : System X} {x y : Bag} → x ≡ y → Step (closes hcl) s x y

  -- Steps, each from the system that the ones before it have led to.
  pub data Steps : List Action → System X → Bag → Bag → Type 0 where
    stop : {s : System X} {x y : Bag} → x ≡ y → Steps [] s x y
    next :
        {act : Action} {acts : List Action} {s : System X} {x y z : Bag}
        → Step act s x y
        → Steps acts (step methodname callback act s) y z
        → Steps (act ∷ acts) s x z

  abbrev items : System X → List Req
  items s = s.proxy.proxy_new ++ (s.held ++ s.proxy.proxy_out)

  -- The requests that djb has.
  abbrev pub pending : System X → Bag
  pending s = bag (items s)

  items-owned : (a : ℕ) (s : System X) → entries a (items s) ≡ owned methodname callback law a s
  items-owned a s = omega (
    arith,
    count_if-append (is_for a) s.proxy.proxy_new (s.held ++ s.proxy.proxy_out),
    count_if-append (is_for a) s.held s.proxy.proxy_out,
  )

  same :
      (s q : System X)
      → ((a : ℕ) → owned methodname callback law a s ≡ owned methodname callback law a q)
      → pending s ≡ pending q
  same s q h = Quot.sound λ a. omega (arith, items-owned a s, items-owned a q, h a)

  more :
      (rs : List Req) (s q : System X)
      → ((a : ℕ)
          → owned methodname callback law a q ≡ entries a rs + owned methodname callback law a s)
      → pending q ≡ add_all rs (pending s)
  unfolding add_all
  more rs s q h = Quot.sound λ a.
      omega (arith, items-owned a s, items-owned a q, h a, count_if-append (is_for a) rs (items s))

  serve-Step :
      (i : ℕ) (found : Option Req) (rest pull : List Req) (s : System X)
      → (pick i s.held).0 ≡ found
      → s.proxy.api_pull ≡ pull
      → ((a : ℕ) → entries a s.held ≡ one_for a found + entries a rest)
      → Step (serves i) s (pending s) (pending (serve methodname callback (found, rest) pull s))
  unfolding serve_leaves
  serve-Step i none rest pull s f g e = Step.no_request f refl
  serve-Step i (some pr) rest [] s f g e = Step.no_puller g refl
  serve-Step i (some pr) rest (ar ∷ pull) s f g e =
      let q = serve methodname callback (some pr, rest) (ar ∷ pull) s in
      let count =
        λ (a : ℕ). owned-serve methodname callback law a (some pr) rest (ar ∷ pull) s (e a) in
      elim (Bool-cases (handed pr ar s.proxy)) [
        | inl h ↦ Step.hands_out pr ar pull f g h (same s q λ a. ground (arith, count a))
        | inr h ↦ Step.dropped pr ar pull f g h (more (pr ∷ []) q s λ a. ground (arith, count a))
      ]

  push_at-Step :
      (hcl : ℕ) (dh : Headers) (s : System X) (q : Proxy) (found : Option Req)
      → djb_find_req_dh hcl dh s.proxy ≡ (q, found)
      → q.proxy_new ≡ s.proxy.proxy_new
      → ((a : ℕ) → entries a s.proxy.proxy_out ≡ one_for a found + entries a q.proxy_out)
      → Step
          (pushes hcl dh)
          s
          (pending s)
          (pending (pushed methodname callback s (push_at callback hcl dh s.state (q, found))))
  push_at-Step hcl dh s q none f n e = Step.unknown (ap (λ r. r.1) f) (
      same s (pushed methodname callback s (push_at callback hcl dh s.state (q, none)))
        λ a. omega (arith, ap (entries a) n, e a))
  push_at-Step hcl dh s q (some r) f n e =
      let user = (q.client r.hcl).user in
      let rs = queues hcl r s q in
      let found : System X = record s { proxy = q } in
      let after = pushed methodname callback s (push_found callback hcl dh r user s.state q) in
      let count = λ (a : ℕ). owned-push_found methodname callback law a hcl dh r user s.state q in
      elim (Bool-cases (releases hcl r s q)) [
        | inl h ↦
            Step.replied r q (pending found) f h
              (more (r ∷ []) found s λ a. omega (arith, ap (entries a) n, e a))
              (more rs found after λ a. ground (arith, count a))
        | inr h ↦
            Step.kept r q f h (more rs s after λ a. ground (arith, ap (entries a) n, e a, count a))
      ]

  step-Step :
      (act : Action) (s : System X)
      → Step act s (pending s) (pending (step methodname callback act s))
  unfolding step entered left djb_push
  step-Step (posts true hcl) s = Step.comes (
      more (new_req hcl ∷ []) s (step methodname callback (posts true hcl) s)
        (λ a. omega (arith, owned-step methodname callback law a (posts true hcl) s)))
  step-Step (posts false hcl) s = Step.refused (
      same s (step methodname callback (posts false hcl) s)
        λ a. omega (arith, owned-step methodname callback law a (posts false hcl) s))
  step-Step (pulls ok hcl) s = Step.pulled (
      same s (step methodname callback (pulls ok hcl) s)
        λ a. omega (arith, owned-step methodname callback law a (pulls ok hcl) s))
  step-Step takes s = Step.taken (
      same s (step methodname callback takes s) λ a.
        omega (arith, owned-take_new methodname callback law a s.idle s.proxy.proxy_new s refl))
  step-Step (serves i) s =
      let (found, rest) = pick i s.held in
      serve-Step i found rest s.proxy.api_pull s refl refl λ a. entries-pick a i s.held
  step-Step (pushes hcl dh) s =
      let (q, found) = djb_find_req_dh hcl dh s.proxy in
      push_at-Step hcl dh s q found refl (djb_find_req_dh-queues 0 hcl dh s.proxy).0
        λ a. (djb_find_req_dh-queues a hcl dh s.proxy).2
  step-Step (closes hcl) s = Step.closed (
      same s (step methodname callback (closes hcl) s)
        λ a. omega (arith, owned-step methodname callback law a (closes hcl) s))

  -- Every run of the handlers, the workers and the closing of connections is a run of the bag of
  -- those that wait for an answer, with these steps. A post adds its request, if there is memory.
  -- A worker that holds a request and gets a puller leaves the bag alone if the puller is there and
  -- the request has a method, and else drops the request that it holds. A push changes nothing if
  -- djb_find_req_dh finds none; else it takes out the request found, unless the callback asks to
  -- keep it, and adds what the callback queues. A pull, a worker that takes a request, one that has
  -- no puller, and a closed connection change nothing, however they move the requests. The
  -- callbacks only add to `proxy_new`, and leave `proxy_out` alone.
  pub run-refines :
      (acts : List Action) (s : System X)
      → Steps acts s (pending s) (pending (run methodname callback acts s))
  unfolding run
  run-refines [] s = Steps.stop refl
  run-refines (act ∷ acts) s =
      Steps.next (step-Step act s) (run-refines acts (step methodname callback act s))
