-- ===== src/Rendezvous/Resets.antt =====
-- What a reset leaves (server/rendezvous.c), and what it does to a worker that runs.
use jumpbox.Base.{
  ℕ, ◌≡◌, ◌≤◌, true, false, not, ◌&&◌, Option, none, some, [], ◌∷◌, arith, ==_refl, if◌then◌else◌,
  Option-cases,
}
use jumpbox.Rendezvous.State.{Layer, Onion, mining, Rdv}
use jumpbox.Rendezvous.Pow.{rdv_pow_worker}
use jumpbox.Rendezvous.Reset.{rdv_reset}
use jumpbox.Rendezvous.Onions.{frees, held}

-- A reset leaves no password, no current onion, no path of an image or of a captcha, and the proof
-- of work not started. If it was started, it is not finished either and has no inner onion, and if
-- not, these two stay as they were. The workers stay.
pub rdv_reset-clears :
    (hcl : ℕ) (r : Rdv)
    → let q = rdv_reset hcl r in
      let old = not r.l_pow_thread_started in
      (q.l_password ≡ [])
      × (q.l_current_onion ≡ none)
      × (q.l_current_image_path ≡ none)
      × (q.l_captcha_image_path ≡ none)
      × (q.l_pow_thread_started ≡ false)
      × (q.l_pow_thread_finished ≡ (old && r.l_pow_thread_finished))
      × (q.l_pow_inner_onion ≡ (if old then r.l_pow_inner_onion else none))
      × (q.workers ≡ r.workers)
unfolding rdv_reset
rdv_reset-clears hcl r = ground (
  arith,
  Option-cases r.l_current_onion,
  Option-cases r.l_captcha_image_path,
  Option-cases r.l_current_image_path,
  Option-cases r.l_pow_inner_onion,
)

rdv_reset-frees : (a hcl : ℕ) (r : Rdv) → held a r.l_current_onion ≤ frees a (rdv_reset hcl r)
unfolding rdv_reset
rdv_reset-frees a hcl r = ground (
  arith,
  Option-cases r.l_current_onion,
  Option-cases r.l_captcha_image_path,
  Option-cases r.l_current_image_path,
  Option-cases r.l_pow_inner_onion,
)

-- A reset while one worker of the proof of work computes frees the onion that the worker reads and
-- leaves the worker, and when the worker has ended, l_pow_thread_finished is set although
-- l_pow_thread_started is not.
pub rdv_reset-mining :
    (hcl : ℕ) (o : Onion) (r : Rdv) (solve : Layer → Option Layer)
    → r.l_current_onion ≡ some o
    → r.workers ≡ mining o ∷ []
    → let q = rdv_reset hcl r in
      let s = rdv_pow_worker solve 0 q in
      (q.workers ≡ mining o ∷ [])
      × (1 ≤ frees o.id q)
      × (s.l_pow_thread_started ≡ false)
      × (s.l_pow_thread_finished ≡ true)
unfolding rdv_pow_worker
rdv_reset-mining hcl o r solve h k = ground (
  arith,
  rdv_reset-clears hcl r,
  rdv_reset-frees o.id hcl r,
  ==_refl o.id,
  Option-cases (solve o.layer),
)
