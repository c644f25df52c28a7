-- ===== src/Rendezvous/Runs.antt =====
-- Requests to server/rendezvous.c and the steps of its workers, in any order.
use jumpbox.Base.{ℕ, ◌+◌, ◌≡◌, Option, List, [], ◌∷◌, arith, ltb, if◌then◌else◌}
use jumpbox.Http.{Client}
use jumpbox.Jansson.{Jansson}
use jumpbox.Acs.State.{Acs}
use jumpbox.Acs.State
use jumpbox.Rendezvous.State.{Layer, World, initial}
use jumpbox.Rendezvous.Pow.{pick_worker, rdv_pow_worker}
use jumpbox.Rendezvous.Peel.{Both}
use jumpbox.Rendezvous.Handle.{rdv_handle}
use jumpbox.Rendezvous.Onions.{held, owned, frees, made_yet, Tally, overwrites, worker-Tally}
use jumpbox.Rendezvous.Ownership.{lost_by, rdv_handle-Tally}

-- A request of a client, with what the libraries do for it, or the next step of a worker.
pub data Action : Type 0 where
  handles : World → ℕ → Client → Action
  works : (Layer → Option Layer) → ℕ → Action

none_made : (a : ℕ) → made_yet a initial ≡ 0
none_made a = ground arith

module _ (J : Jansson) (aw : State.World) where
  unfoldable pub step : Action → Both J aw → Both J aw
  step (handles w hcl c) (acs, r) = rdv_handle J aw w hcl c acs r
  step (works solve i) (acs, r) = (acs, rdv_pow_worker solve i r)

  unfoldable pub run : List Action → Both J aw → Both J aw
  unfolding step
  run [] s = s
  run (act ∷ acts) s = run acts (step act s)

  -- The onion that a step overwrites: rdv_image the current one, a worker that ends the one that
  -- another worker has left.
  abbrev pub lost : ℕ → Action → Both J aw → ℕ
  lost a (handles w hcl c) (acs, r) = lost_by J aw a w c r
  lost a (works solve i) (acs, r) =
      held a (overwrites (pick_worker i r.workers).0 r.l_pow_inner_onion)

  abbrev pub lost_in : ℕ → List Action → Both J aw → ℕ
  lost_in a [] s = 0
  lost_in a (act ∷ acts) s = lost a act s + lost_in a acts (step act s)

  step-Tally : (a : ℕ) (act : Action) (s : Both J aw) → Tally a (lost a act s) s.1 (step act s).1
  unfolding step rdv_pow_worker
  step-Tally a (handles w hcl c) (acs, r) = rdv_handle-Tally J aw a w hcl c acs r
  step-Tally a (works solve i) (acs, r) =
      let (found, rest) = pick_worker i r.workers in worker-Tally a solve found rest r

  run-Tally :
      (a : ℕ) (acts : List Action) (s : Both J aw) → Tally a (lost_in a acts s) s.1 (run acts s).1
  unfolding run
  run-Tally a [] s = omega arith
  run-Tally a (act ∷ acts) s = omega (arith, step-Tally a act s, run-Tally a acts (step act s))

  -- In every order of requests and steps of workers, from the start: each onion that the libraries
  -- have made is counted once in all as held by l_current_onion or l_pow_inner_onion, as freed, and
  -- as overwritten without being freed, and what was not made is not counted. So no onion is freed
  -- twice, and none that was freed is left in one of the two variables.
  pub run-owns :
      (a : ℕ) (acts : List Action) (acs : Acs J.Json)
      → let s : Both J aw = (acs, initial) in
        let r = (run acts s).1 in
        owned a r + frees a r + lost_in a acts s ≡ (if ltb a r.made then 1 else 0)
  run-owns a acts acs = omega (arith, run-Tally a acts (acs, initial), none_made a)
