-- ===== src/Proxy/Find.antt =====
-- djb_find_req and djb_find_phcl (server/djb.c) against the library's search and removal in a list.
use mathlib.Core.Logic.Dec
use mathlib.Core.Logic.{ite}
use mathlib.Core.List.{filter, erase_p, head?}
use native.Mathlib.Decide.{ℕ_discrete}
use jumpbox.Base.{
  ℕ, ◌≡◌, refl, Bool, true, false, ◌&&◌, Option, some, List, [], ◌∷◌, arith, ◌==◌, if◌then◌else◌,
}
use jumpbox.Http.{Client}
use jumpbox.Proxy.Queues.{Req, find_req, find_phcl}

-- The first entry that a decision accepts, and the list without it.
abbrev pub first : {P : Req → Type 0} → ((r : Req) → Dec (P r)) → List Req → Option Req × List Req
first d l = (head? (filter d l), erase_p d l)

abbrev pub Fits : (ℕ → Client) → ℕ → ℕ → Req → Type 0
Fits client id reqid r = ((client r.hcl).id ≡ id) × ((client r.hcl).reqid ≡ reqid)

abbrev pub fits? : (client : ℕ → Client) (id reqid : ℕ) (r : Req) → Dec (Fits client id reqid r)
fits? client id reqid r =
    Dec.and (ℕ_discrete (client r.hcl).id id) (ℕ_discrete (client r.hcl).reqid reqid)

abbrev pub handed? : (phcl_id : ℕ) (r : Req) → Dec (r.phcl_id ≡ phcl_id)
handed? phcl_id r = ℕ_discrete r.phcl_id phcl_id

-- One entry, with a decision on it.
first-step :
    {P : Type 0} (test : Bool) (x : Dec P) (r : Req) (rs f e : List Req)
    (found : Option Req × List Req)
    → (P → test ≡ true)
    → (test ≡ true → P)
    → found ≡ (head? f, e)
    → let kept : Option Req × List Req = (found.0, r ∷ found.1) in
      let taken : Option Req × List Req = (some r, rs) in
      let head : Option Req × List Req = (head? (ite x (r ∷ f) f), ite x rs (r ∷ e)) in
      (if test then taken else kept) ≡ head
first-step test (yes p) r rs f e found s c h = rw (s p) refl
first-step true (no n) r rs f e found s c h = absurd (n (c refl))
first-step false (no n) r rs f e found s c h = cc

find_req-by :
    (client : ℕ → Client) (id reqid : ℕ) (d : (r : Req) → Dec (Fits client id reqid r))
    (l : List Req)
    → find_req client id reqid l ≡ first d l
unfolding find_req
find_req-by client id reqid d [] = refl
find_req-by client id reqid d (r ∷ rs) =
    first-step (((client r.hcl).id == id) && ((client r.hcl).reqid == reqid)) (d r) r rs
      (filter d rs) (erase_p d rs) (find_req client id reqid rs) (λ (p, q). ground arith)
      (λ t. (ground arith, ground arith)) (find_req-by client id reqid d rs)

find_phcl-by :
    (phcl_id : ℕ) (d : (r : Req) → Dec (r.phcl_id ≡ phcl_id)) (l : List Req)
    → find_phcl phcl_id l ≡ first d l
unfolding find_phcl
find_phcl-by phcl_id d [] = refl
find_phcl-by phcl_id d (r ∷ rs) =
    first-step (r.phcl_id == phcl_id) (d r) r rs (filter d rs) (erase_p d rs) (find_phcl phcl_id rs)
      (λ p. ground arith) (λ t. ground arith) (find_phcl-by phcl_id d rs)

-- djb_find_req and djb_find_phcl find the first of the entries that fit, those with both numbers
-- of the client or with the puller's id, and take just it off the list: they are the head of the
-- library's filter and its removal by a decision.
pub finds-first :
    (client : ℕ → Client) (id reqid phcl_id : ℕ) (l : List Req)
    → (find_req client id reqid l ≡ first (fits? client id reqid) l)
      × (find_phcl phcl_id l ≡ first (handed? phcl_id) l)
finds-first client id reqid phcl_id l = (
  find_req-by client id reqid (fits? client id reqid) l,
  find_phcl-by phcl_id (handed? phcl_id) l,
)
