-- ===== src/Proxy/Drain.antt =====
-- The requests that wait are handed out in turn (server/djb.c): what rounds of the worker threads
-- come to while there are pullers.
use jumpbox.Base.{
  ℕ, suc, ◌≡◌, refl, ap, ◌∙◌, Bool, true, false, not, ◌&&◌, List, [], ◌∷◌, ◌++◌, Text, arith,
  length, drop,
}
use mathlib.Core.List.{append-nil, append_assoc}
use jumpbox.Http.{Client, Callback, Method, is_none_method}
use jumpbox.Proxy.Queues.{Req, Proxy}
use jumpbox.Proxy.Workers.{System, Action, takes, serves, pick, step, run}
use jumpbox.Proxy.Ledger.{handed, djb_handle_forward-queues}

-- A worker takes a request and then a puller, before the next request is taken, as often as there
-- are requests.
abbrev pub rounds : List Req → List Action
rounds [] = []
rounds (r ∷ rs) = takes ∷ serves 0 ∷ rounds rs

-- Whether there is a puller for each request, which is there, and each request has a method.
abbrev pub all_handed : (ℕ → Client) → List Req → List Req → Bool
all_handed client [] pull = true
all_handed client (r ∷ rs) [] = false
all_handed client (r ∷ rs) (ar ∷ pull) =
    ((client ar.hcl).valid && not (is_none_method (client r.hcl).method))
    && all_handed client rs pull

-- The requests with the pullers in turn.
abbrev pub in_turn : (ℕ → Client) → List Req → List Req → List Req
in_turn client [] pull = []
in_turn client (r ∷ rs) [] = []
in_turn client (r ∷ rs) (ar ∷ pull) =
    record r { phcl_id = (client ar.hcl).id } ∷ in_turn client rs pull

module _ {X : Type 0} (methodname : Method → Text)
    (callback : Callback → ℕ → ℕ → X → Proxy → X × Proxy × Bool) where
  -- One round.
  abbrev round : System X → System X
  round s = step methodname callback (serves 0) (step methodname callback takes s)

  round-hands :
      (k : ℕ) (r ar : Req) (rs pull : List Req) (s : System X)
      → s.held ≡ []
      → s.idle ≡ suc k
      → s.proxy.proxy_new ≡ r ∷ rs
      → s.proxy.api_pull ≡ ar ∷ pull
      → handed r ar s.proxy ≡ true
      → let q = round s in
        (q.held ≡ [])
        × (q.idle ≡ suc k)
        × (q.proxy.proxy_new ≡ rs)
        × (q.proxy.api_pull ≡ pull)
        × (q.proxy.client ≡ s.proxy.client)
        × (q.proxy.proxy_out
            ≡ s.proxy.proxy_out ++ record r { phcl_id = (s.proxy.client ar.hcl).id } ∷ [])
  unfolding step pick
  round-hands k r ar rs pull s h i n p v = ground (
    arith,
    djb_handle_forward-queues methodname r ar (record s.proxy { proxy_new = rs; api_pull = pull }),
  )

  abbrev Drained : ℕ → List Req → List Req → System X → System X → Type 0
  Drained k new pull s q =
      (q.proxy.proxy_new ≡ [])
      × (q.proxy.proxy_out ≡ s.proxy.proxy_out ++ in_turn s.proxy.client new pull)
      × (q.proxy.api_pull ≡ drop (length new) pull)
      × (q.held ≡ [])
      × (q.idle ≡ suc k)

  rounds-Drained :
      (k : ℕ) (new pull : List Req) (s : System X)
      → s.held ≡ []
      → s.idle ≡ suc k
      → s.proxy.proxy_new ≡ new
      → s.proxy.api_pull ≡ pull
      → all_handed s.proxy.client new pull ≡ true
      → Drained k new pull s (run methodname callback (rounds new) s)
  unfolding run
  rounds-Drained k [] pull s h i n p a = ground (arith, append-nil s.proxy.proxy_out)
  rounds-Drained k (r ∷ rs) [] s h i n p a = ground arith
  rounds-Drained k (r ∷ rs) (ar ∷ pull) s h i n p a =
      let q = round s in
      let first = round-hands k r ar rs pull s h i n p (ground arith) in
      let c : q.proxy.client ≡ s.proxy.client = first.4 in
      let later : all_handed q.proxy.client rs pull ≡ true = rw c (ground arith) in
      let rest = rounds-Drained k rs pull q first.0 first.1 first.2 first.3 later in
      let out = record r { phcl_id = (s.proxy.client ar.hcl).id } in
      let after = in_turn s.proxy.client rs pull in
      let m : in_turn q.proxy.client rs pull ≡ after = ap (λ f. in_turn f rs pull) c in
      let ends : q.proxy.proxy_out ++ in_turn q.proxy.client rs pull
          ≡ s.proxy.proxy_out ++ out ∷ [] ++ after =
        simp (first.5, m) in
      (
        rest.0,
        rest.1 ∙ (ends ∙ append_assoc s.proxy.proxy_out (out ∷ []) after),
        rest.2,
        rest.3,
        rest.4,
      )

  -- One schedule of the workers, in which a worker that takes a new request gets its puller before
  -- another worker takes the next one. Started with a worker idle and none that holds a request,
  -- with a puller for each new request whose client is still there, and with a method in each new
  -- request, it hands all of them out, in the order in which they were queued, to the pullers in
  -- their order. The requests that were out before stay before them, the other pullers stay, and
  -- afterwards no worker holds a request and as many are idle as before.
  pub run-drains :
      (k : ℕ) (s : System X)
      → s.held ≡ []
      → s.idle ≡ suc k
      → all_handed s.proxy.client s.proxy.proxy_new s.proxy.api_pull ≡ true
      → let q = run methodname callback (rounds s.proxy.proxy_new) s in
        (q.proxy.proxy_new ≡ [])
        × (q.proxy.proxy_out
            ≡ s.proxy.proxy_out ++ in_turn s.proxy.client s.proxy.proxy_new s.proxy.api_pull)
        × (q.proxy.api_pull ≡ drop (length s.proxy.proxy_new) s.proxy.api_pull)
        × (q.held ≡ [])
        × (q.idle ≡ suc k)
  run-drains k s h i a = rounds-Drained k s.proxy.proxy_new s.proxy.api_pull s h i refl refl a
