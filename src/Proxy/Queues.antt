-- ===== src/Proxy/Queues.antt =====
-- djb_req_t, the queues, and the operations that only move entries (server/djb.c).
use jumpbox.Base.{
  ℕ, Bool, true, false, ◌&&◌, Option, none, some, List, [], ◌∷◌, ◌++◌, Text, txt, ◌==◌,
  if◌then◌else◌,
}
use jumpbox.Http.{Client, Event, done, error, expire, force, update}

-- djb_req_t: the client that the entry is for, and the id of the puller that it was handed to.
pub record Req : Type 0 where
  pub hcl : ℕ
  pub phcl_id : ℕ

-- The module's lists, the clients by address, and the calls of libfutil so far, newest first.
pub record Proxy : Type 0 where
  pub proxy_new : List Req
  pub proxy_out : List Req
  pub api_pull : List Req
  pub client : ℕ → Client
  pub log : List Event

abbrev pub say : Event → Proxy → Proxy
say e p = record p { log = e ∷ p.log }

abbrev pub write : ℕ → Client → Proxy → Proxy
write a c p = record p { client = update p.client a c }

-- djb_error also forbids caching and ends the request.
abbrev pub djb_error : ℕ → ℕ → Text → Proxy → Proxy
djb_error hcl code msg p = say (done hcl) (say (expire hcl force) (say (error hcl code msg) p))

-- mcalloc fills the entry with zeroes.
abbrev pub new_req : ℕ → Req
new_req hcl = record { hcl = hcl; phcl_id = 0 }

-- The loop of djb_find_req: the first entry that fits, taken off the list.
unfoldable pub find_req : (ℕ → Client) → ℕ → ℕ → List Req → Option Req × List Req
find_req client id reqid [] = (none, [])
find_req client id reqid (r ∷ rs) =
    let (found, rest) = find_req client id reqid rs in
    if ((client r.hcl).id == id) && ((client r.hcl).reqid == reqid)
    then (some r, rs)
    else (found, r ∷ rest)

-- The loop of djb_find_phcl.
unfoldable pub find_phcl : ℕ → List Req → Option Req × List Req
find_phcl phcl_id [] = (none, [])
find_phcl phcl_id (r ∷ rs) =
    let (found, rest) = find_phcl phcl_id rs in
    if r.phcl_id == phcl_id then (some r, rs) else (found, r ∷ rest)

-- The first argument is whether mcalloc succeeds.
unfoldable pub djb_proxy_add : Bool → ℕ → Proxy → Proxy × Bool
djb_proxy_add calloc_ok hcl p =
    if calloc_ok
    then (record p { proxy_new = p.proxy_new ++ new_req hcl ∷ [] }, true)
    else (djb_error hcl 500 (txt "Out of memory") p, false)

-- Run after the handler of a /pull/.
unfoldable pub djb_pull_post : Bool → ℕ → Proxy → Proxy
djb_pull_post calloc_ok hcl p =
    if calloc_ok
    then record p { api_pull = p.api_pull ++ new_req hcl ∷ [] }
    else djb_error hcl 500 (txt "Out of memory") p

-- The handler of a /pull/ keeps the client; djb_pull_post follows.
unfoldable pub djb_pull : ℕ → Proxy → Proxy × Bool
djb_pull hcl p = (write hcl (record (p.client hcl) { keephandling = true }) p, true)

abbrev pub reschedule : Option Req × List Req → Proxy → Proxy
reschedule (none, out) p = p
reschedule (some r, out) p = record p { proxy_out = out; proxy_new = p.proxy_new ++ r ∷ [] }

-- A client goes away: a request that was handed to it is queued again.
unfoldable pub djb_close : ℕ → Proxy → Proxy
unfolding find_phcl
djb_close hcl p = reschedule (find_phcl (p.client hcl).id p.proxy_out) p
