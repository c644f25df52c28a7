-- ===== src/Proxy/Ledger.antt =====
-- The entries of each client in the queues of server/djb.c, counted before and after each
-- operation.
use jumpbox.Base.{
  ℕ, zero, suc, ◌+◌, ◌≡◌, refl, Bool, not, ◌&&◌, Option, none, some, List, [], ◌∷◌, ◌++◌, Text,
  arith, ◌==◌, if◌then◌else◌, count_if, count_if-append,
}
use jumpbox.Http.{Client, Headers, Method, is_none_method}
use jumpbox.SeqNo.{scan_seqno}
use jumpbox.Proxy.Queues.{Req, Proxy, find_req, find_phcl, reschedule, djb_close}
use jumpbox.Proxy.Forward.{djb_handle_forward}
use jumpbox.Proxy.Push.{not_found, look_up, djb_find_req_dh, push_normal}
use jumpbox.Proxy.Workers.{pick}

-- Whether an entry is for the client at an address, as a number.
abbrev pub is_for : ℕ → Req → Bool
is_for a r = r.hcl == a

abbrev pub one : Bool → ℕ
one b = if b then 1 else 0

abbrev pub one_for : ℕ → Option Req → ℕ
one_for a none = 0
one_for a (some r) = one (is_for a r)

-- The entries for a client in a list.
abbrev pub entries : ℕ → List Req → ℕ
entries a = count_if (is_for a)

-- Those in the two queues.
abbrev pub queued : ℕ → Proxy → ℕ
queued a p = entries a p.proxy_new + entries a p.proxy_out

entries-find_req :
    (a : ℕ) (client : ℕ → Client) (id reqid : ℕ) (l : List Req)
    → let (found, rest) = find_req client id reqid l in
      entries a l ≡ one_for a found + entries a rest
unfolding find_req
entries-find_req a client id reqid [] = refl
entries-find_req a client id reqid (r ∷ rs) = ground (arith, entries-find_req a client id reqid rs)

entries-find_phcl :
    (a id : ℕ) (l : List Req)
    → let (found, rest) = find_phcl id l in entries a l ≡ one_for a found + entries a rest
unfolding find_phcl
entries-find_phcl a id [] = refl
entries-find_phcl a id (r ∷ rs) = ground (arith, entries-find_phcl a id rs)

pub entries-pick :
    (a i : ℕ) (l : List Req)
    → let (found, rest) = pick i l in entries a l ≡ one_for a found + entries a rest
unfolding pick
entries-pick a i [] = refl
entries-pick a zero (r ∷ rs) = refl
entries-pick a (suc i) (r ∷ rs) = ground (arith, entries-pick a i rs)

pub entries-snoc :
    (a : ℕ) (l : List Req) (r : Req) → entries a (l ++ r ∷ []) ≡ entries a l + one (is_for a r)
entries-snoc a l r = omega (arith, count_if-append (is_for a) l (r ∷ []))

queued-reschedule :
    (a : ℕ) (found : Option Req) (out : List Req) (p : Proxy)
    → entries a p.proxy_out ≡ one_for a found + entries a out
    → queued a (reschedule (found, out) p) ≡ queued a p
queued-reschedule a none out p h = refl
queued-reschedule a (some r) out p h = omega (arith, entries-snoc a p.proxy_new r)

-- Closing a connection moves entries between the queues, and keeps them all.
pub queued-djb_close : (a hcl : ℕ) (p : Proxy) → queued a (djb_close hcl p) ≡ queued a p
unfolding djb_close
queued-djb_close a hcl p =
    let (found, out) = find_phcl (p.client hcl).id p.proxy_out in
    queued-reschedule a found out p (entries-find_phcl a (p.client hcl).id p.proxy_out)

-- djb_handle_forward hands the request out if the puller is there and the request has a method.
abbrev pub handed : Req → Req → Proxy → Bool
handed pr ar p = (p.client ar.hcl).valid && not (is_none_method (p.client pr.hcl).method)

-- What djb_handle_forward does to the queues: a request that has a method, and whose puller is
-- there, goes to the end of `proxy_out` with the puller's id in it; any other request goes nowhere;
-- and the other queues and the clients are as they were.
pub djb_handle_forward-queues :
    (methodname : Method → Text) (pr ar : Req) (p : Proxy)
    → let q = djb_handle_forward methodname pr ar p in
      (q.proxy_new ≡ p.proxy_new)
      × (q.proxy_out ≡ (
          if handed pr ar p
          then p.proxy_out ++ record pr { phcl_id = (p.client ar.hcl).id } ∷ []
          else p.proxy_out))
      × (q.api_pull ≡ p.api_pull)
      × (q.client ≡ p.client)
unfolding djb_handle_forward
djb_handle_forward-queues methodname pr ar p = ground arith

pub queued-djb_handle_forward :
    (methodname : Method → Text) (a : ℕ) (pr ar : Req) (p : Proxy)
    → queued a (djb_handle_forward methodname pr ar p)
      ≡ queued a p + (if handed pr ar p then one (is_for a pr) else 0)
queued-djb_handle_forward methodname a pr ar p = ground (
  arith,
  djb_handle_forward-queues methodname pr ar p,
  entries-snoc a p.proxy_out (record pr { phcl_id = (p.client ar.hcl).id }),
)

not_found-queues :
    (a hcl : ℕ) (found : Option Req) (out : List Req) (p : Proxy)
    → entries a p.proxy_out ≡ one_for a found + entries a out
    → let (q, r) = not_found hcl (found, out) p in
      (q.proxy_new ≡ p.proxy_new)
      × (q.client ≡ p.client)
      × (entries a p.proxy_out ≡ one_for a r + entries a q.proxy_out)
not_found-queues a hcl none out p h = (refl, refl, omega arith)
not_found-queues a hcl (some r) out p h = (refl, refl, h)

look_up-queues :
    (a hcl : ℕ) (key : Option (ℕ × ℕ)) (p : Proxy)
    → let (q, r) = look_up hcl key p in
      (q.proxy_new ≡ p.proxy_new)
      × (q.client ≡ p.client)
      × (entries a p.proxy_out ≡ one_for a r + entries a q.proxy_out)
look_up-queues a hcl none p = (refl, refl, omega arith)
look_up-queues a hcl (some (id, reqid)) p =
    let (found, out) = find_req p.client id reqid p.proxy_out in
    not_found-queues a hcl found out p (entries-find_req a p.client id reqid p.proxy_out)

-- djb_find_req_dh takes the entry that it returns off `proxy_out`, and no other.
pub djb_find_req_dh-queues :
    (a hcl : ℕ) (dh : Headers) (p : Proxy)
    → let (q, r) = djb_find_req_dh hcl dh p in
      (q.proxy_new ≡ p.proxy_new)
      × (q.client ≡ p.client)
      × (entries a p.proxy_out ≡ one_for a r + entries a q.proxy_out)
unfolding djb_find_req_dh
djb_find_req_dh-queues a hcl dh p = ground (arith, look_up-queues a hcl (scan_seqno dh.seqno) p)

pub push_normal-queues :
    (hcl : ℕ) (dh : Headers) (r : Req) (p : Proxy)
    → let q = (push_normal hcl dh r p).0 in
      (q.proxy_new ≡ p.proxy_new) × (q.proxy_out ≡ p.proxy_out) × (q.api_pull ≡ p.api_pull)
unfolding push_normal
push_normal-queues hcl dh r p = ground arith
