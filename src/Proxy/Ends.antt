-- ===== src/Proxy/Ends.antt =====
-- How a push ends: what is found, what is refused, and who is answered.
use jumpbox.Base.{
  ℕ, ◌+◌, ◌<◌, ◌≡◌, ◌≢◌, refl, Bool, true, false, not, ◌&&◌, Option, none, some, List, [], ◌∷◌, ◌↔◌,
  arith, Text, txt, ◌==◌, if◌then◌else◌, count_if, is_empty, inl, inr, ◌⊎◌, Option-cases,
}
use jumpbox.Http.{Client, Headers, Callback, Event, error, expire, force, done, free, forward}
use jumpbox.SeqNo.{scan_seqno}
use jumpbox.Proxy.Queues.{Req, Proxy, find_req}
use jumpbox.Proxy.Push.{djb_find_req_dh, push_normal, djb_push}
use jumpbox.Proxy.Match.{has_key}

find_req-none :
    (client : ℕ → Client) (id reqid : ℕ) (l : List Req)
    → ((find_req client id reqid l).0 ≡ none) ↔ (count_if (has_key client id reqid) l ≡ 0)
unfolding find_req
find_req-none client id reqid [] = (λ h. refl, λ h. refl)
find_req-none client id reqid (x ∷ l) = ground (arith, find_req-none client id reqid l)

-- A push carries what it must: a code, a text, and a sequence number that can be read.
abbrev readable : Option (ℕ × ℕ) → Bool
readable none = false
readable (some k) = true

abbrev pub is_complete : Headers → Bool
is_complete dh =
    not (is_empty dh.httpcode) && not (is_empty dh.httptext) && readable (scan_seqno dh.seqno)

-- How many outstanding requests have the ids that a sequence number names.
abbrev pub asked_for : Option (ℕ × ℕ) → Proxy → ℕ
asked_for none p = 0
asked_for (some (id, reqid)) p = count_if (has_key p.client id reqid) p.proxy_out

abbrev scan_text : Option (ℕ × ℕ) → Text
scan_text none = txt "Missing or malformed DJB-SeqNo"
scan_text (some k) = txt "No such request outstanding"

abbrev refusal_text : Headers → Text
refusal_text dh =
    if is_empty dh.httpcode
    then txt "Missing DJB-HTTPCode"
    else (if is_empty dh.httptext
        then txt "Missing DJB-HTTPText"
        else scan_text (scan_seqno dh.seqno))

-- A push that lacks a parameter or names no outstanding request is refused: djb_find_req_dh returns
-- NULL, and all that it does is one djb_error to the push's client, three calls with the code 504
-- for a missing or malformed parameter and 404 for a request that is not outstanding.
pub djb_find_req_dh-none :
    (hcl : ℕ) (dh : Headers) (p : Proxy)
    → ((is_complete dh ≡ false) ⊎ (asked_for (scan_seqno dh.seqno) p ≡ 0))
    → let (q, found) = djb_find_req_dh hcl dh p in
      let code : ℕ = if is_complete dh then 404 else 504 in
      (found ≡ none)
      × ((msg : Text) × (q
            ≡ record p { log = done hcl ∷ expire hcl force ∷ error hcl code msg ∷ p.log }))
unfolding djb_find_req_dh
djb_find_req_dh-none hcl dh p h = elim (Option-cases (scan_seqno dh.seqno)) [
  | inl e ↦ (ground arith, (refusal_text dh, ground arith))
  | inr ((id, reqid), e) ↦
      let none_fits = find_req-none p.client id reqid p.proxy_out in
      (ground (arith, none_fits), (refusal_text dh, ground (arith, none_fits)))
]

-- A push with all its parameters that names an outstanding request gets one.
pub djb_find_req_dh-some :
    (hcl : ℕ) (dh : Headers) (p : Proxy)
    → is_complete dh ≡ true
    → 0 < asked_for (scan_seqno dh.seqno) p
    → (djb_find_req_dh hcl dh p).1 ≢ none
unfolding djb_find_req_dh
djb_find_req_dh-some hcl dh p c h = elim (Option-cases (scan_seqno dh.seqno)) [
  | inl e ↦ ground arith
  | inr ((id, reqid), e) ↦ ground (arith, find_req-none p.client id reqid p.proxy_out)
]

-- How often a client's request was ended, and the entry of a client released.
unfoldable pub dones : ℕ → List Event → ℕ
dones to [] = 0
dones to (done a ∷ log) = (if a == to then 1 else 0) + dones to log
dones to (_ ∷ log) = dones to log

unfoldable pub frees : ℕ → List Event → ℕ
frees to [] = 0
frees to (free a ∷ log) = (if a == to then 1 else 0) + frees to log
frees to (_ ∷ log) = frees to log

unfoldable pub forwards : ℕ → ℕ → List Event → ℕ
forwards from to [] = 0
forwards from to (forward a b ∷ log) =
    (if (a == from) && (b == to) then 1 else 0) + forwards from to log
forwards from to (_ ∷ log) = forwards from to log

-- How a push ends that answers the request of another client, which is no internal one. If the client is there and the push has no body, both
-- requests are ended; if it has one, neither is, and the body is forwarded. If the client is gone,
-- only the push is ended, and the entry, which djb_push has taken off the queue, is never released.
pub push_normal-ends :
    (hcl : ℕ) (dh : Headers) (pr : Req) (p : Proxy)
    → hcl ≢ pr.hcl
    → let q = (push_normal hcl dh pr p).0 in
      let valid = (p.client pr.hcl).valid in
      let short = (p.client hcl).content_length == 0 in
      (dones hcl q.log ≡ dones hcl p.log + (if valid && not short then 0 else 1))
      × (dones pr.hcl q.log ≡ dones pr.hcl p.log + (if valid && short then 1 else 0))
      × (forwards hcl pr.hcl q.log
          ≡ forwards hcl pr.hcl p.log + (if valid && not short then 1 else 0))
      × (frees pr.hcl q.log ≡ frees pr.hcl p.log + (if valid then 1 else 0))
unfolding push_normal dones frees forwards
push_normal-ends hcl dh pr p h = ground arith

-- A push that lacks a parameter or names no outstanding request is ended twice: by djb_error, and
-- again by djb_push.
pub djb_push-refused :
    {X : Type 0} (callback : Callback → ℕ → ℕ → X → Proxy → X × Proxy × Bool) (hcl : ℕ)
    (dh : Headers) (x : X) (p : Proxy)
    → ((is_complete dh ≡ false) ⊎ (asked_for (scan_seqno dh.seqno) p ≡ 0))
    → dones hcl (djb_push callback hcl dh x p).1.log ≡ dones hcl p.log + 2
unfolding djb_push djb_find_req_dh dones
djb_push-refused callback hcl dh x p h = elim (Option-cases (scan_seqno dh.seqno)) [
  | inl e ↦ ground arith
  | inr ((id, reqid), e) ↦ ground (arith, find_req-none p.client id reqid p.proxy_out)
]
