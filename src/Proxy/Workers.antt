-- ===== src/Proxy/Workers.antt =====
-- The worker threads of server/djb.c and every order in which they, the handlers and the closing
-- of connections can follow one another. A worker takes a request, and waits in list_getnext for
-- a puller: `held` lists the requests that workers hold there.
use jumpbox.Base.{ℕ, zero, suc, Bool, Option, none, some, List, [], ◌∷◌, Text}
use jumpbox.Http.{Headers, Callback, Method, free}
use jumpbox.Proxy.Queues.{Req, Proxy, say, djb_proxy_add, djb_pull_post, djb_close}
use jumpbox.Proxy.Forward.{djb_handle_forward}
use jumpbox.Proxy.Push.{djb_push}

-- `state` is what the callbacks of server/acs.c work on, `idle` the number of waiting workers.
pub record System (X : Type 0) : Type 0 where
  pub proxy : Proxy
  pub held : List Req
  pub idle : ℕ
  pub state : X

-- A handler or a worker runs up to its next wait. The flag of the first two is mcalloc's success.
pub data Action : Type 0 where
  posts : Bool → ℕ → Action  -- djb_handle_proxy_post of a client
  pulls : Bool → ℕ → Action  -- djb_pull_post of a client
  takes : Action  -- a worker gets a new request
  serves : ℕ → Action  -- the worker with this held request gets a puller
  pushes : ℕ → Headers → Action  -- djb_push of a client
  closes : ℕ → Action  -- djb_close of a client

-- The held request at a position, and the others.
unfoldable pub pick : ℕ → List Req → Option Req × List Req
pick i [] = (none, [])
pick zero (r ∷ rs) = (some r, rs)
pick (suc i) (r ∷ rs) = let (found, rest) = pick i rs in (found, r ∷ rest)

module _ {X : Type 0} (methodname : Method → Text)
    (callback : Callback → ℕ → ℕ → X → Proxy → X × Proxy × Bool) where
  -- The loop of djb_worker_thread up to its second list_getnext, which waits on an empty list.
  abbrev pub take_new : ℕ → List Req → System X → System X
  take_new zero new s = s
  take_new (suc k) [] s = s
  take_new (suc k) (r ∷ rs) s = record s {
    proxy = record s.proxy { proxy_new = rs };
    held = r ∷ s.held;
    idle = k;
  }

  -- The rest of the loop.
  abbrev pub serve : Option Req × List Req → List Req → System X → System X
  serve (none, rest) pull s = s
  serve (some pr, rest) [] s = s
  serve (some pr, rest) (ar ∷ pull) s = record s {
    proxy =
        say (free ar.hcl)
          (djb_handle_forward methodname pr ar (record s.proxy { api_pull = pull }));
    held = rest;
    idle = suc s.idle;
  }

  abbrev pub pushed : System X → X × Proxy × Bool → System X
  pushed s (x, p, done) = record s { proxy = p; state = x }

  unfoldable pub step : Action → System X → System X
  step (posts ok hcl) s = record s { proxy = (djb_proxy_add ok hcl s.proxy).0 }
  step (pulls ok hcl) s = record s { proxy = djb_pull_post ok hcl s.proxy }
  step takes s = take_new s.idle s.proxy.proxy_new s
  step (serves i) s = serve (pick i s.held) s.proxy.api_pull s
  step (pushes hcl dh) s = pushed s (djb_push callback hcl dh s.state s.proxy)
  step (closes hcl) s = record s { proxy = djb_close hcl s.proxy }

  unfoldable pub run : List Action → System X → System X
  unfolding step
  run [] s = s
  run (a ∷ acts) s = run acts (step a s)
