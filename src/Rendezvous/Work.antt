-- ===== src/Rendezvous/Work.antt =====
-- A proof of work from its start to the next layer (server/rendezvous.c).
use jumpbox.Base.{
  ℕ, ◌≡◌, Bool, true, false, Option, none, some, [], arith, Option-cases, inl, inr, if◌then◌else◌,
}
use jumpbox.Rendezvous.State.{Layer, Onion, Rdv, World}
use jumpbox.Rendezvous.Reset.{rdv_pow_reset}
use jumpbox.Rendezvous.Pow.{max_attempts, rdv_peel_pow, rdv_pow_worker, pick_worker}

-- The current onion after the work, which is a new one if there is a solution.
abbrev pub worked : Option Layer → Onion → ℕ → Onion
worked none o made = o
worked (some layer) o made = record { id = made; layer = layer }

abbrev pub is_solved : Option Layer → Bool
is_solved none = false
is_solved (some layer) = true

-- A proof of work at the current onion that nothing disturbs, where no worker runs and a thread can
-- be started: the first peel starts a worker, after the two steps of the worker the work is
-- finished, without a read through NULL, and the next peel takes what the worker has found as the
-- current onion and leaves the proof of work as not started; if it has found nothing, the onion
-- stays and the proof of work stays started.
pub rdv_peel_pow-finishes :
    (w v : World) (o : Onion) (r : Rdv) (solve : Layer → Option Layer)
    → r.l_current_onion ≡ some o
    → r.workers ≡ []
    → r.l_pow_thread_started ≡ false
    → w.thread_add_ok ≡ true
    → let done = rdv_pow_worker solve 0 (rdv_pow_worker solve 0 (rdv_peel_pow w o r).0) in
      let q = (rdv_peel_pow v o done).0 in
      (done.l_pow_thread_finished ≡ true)
      × (done.l_pow_thread_progress ≡ max_attempts)
      × (done.workers ≡ [])
      × (done.fault ≡ r.fault)
      × (q.l_current_onion ≡ some (worked (solve o.layer) o r.made))
      × (q.l_pow_thread_started ≡ (if is_solved (solve o.layer) then false else true))
unfolding rdv_peel_pow rdv_pow_reset rdv_pow_worker pick_worker
rdv_peel_pow-finishes w v o r solve c e s t = elim (Option-cases (solve o.layer)) [
  | inl h ↦ ground arith
  | inr (layer, h) ↦ ground arith
]
