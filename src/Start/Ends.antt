-- ===== src/Start/Ends.antt =====
-- What djb_run has set up and cleaned up when it returns (server/djb.c).
use jumpbox.Base.{
  ℕ, zero, suc, ◌+◌, ◌≡◌, refl, Bool, true, false, ◌&&◌, [], ◌++◌, arith, if◌then◌else◌, count_if,
  count_if-append,
}
use jumpbox.Start.{
  World, Op, prf_init, acs_init, acs_exit, httpsrv_start, httpsrv_exit, sleeps, stopall, adds,
  add_workers, loop, is_fine, serve, cleanup, djb_run,
}

abbrev pub is_prf_init : Op → Bool
is_prf_init prf_init = true
is_prf_init _ = false

abbrev pub is_acs_init : Op → Bool
is_acs_init acs_init = true
is_acs_init _ = false

abbrev pub is_acs_exit : Op → Bool
is_acs_exit acs_exit = true
is_acs_exit _ = false

abbrev pub is_start : Op → Bool
is_start httpsrv_start = true
is_start _ = false

abbrev pub is_exit : Op → Bool
is_exit httpsrv_exit = true
is_exit _ = false

abbrev pub is_stop : Op → Bool
is_stop stopall = true
is_stop _ = false

abbrev pub is_sleep : Op → Bool
is_sleep sleeps = true
is_sleep _ = false

-- How often a call was made.
abbrev pub made : (Op → Bool) → World → ℕ
made t w = count_if t (djb_run w).0

-- Whether thread_add succeeds for k workers from the i-th.
abbrev pub all_added : World → ℕ → ℕ → Bool
all_added w i zero = true
all_added w i (suc k) = w.thread_add i && all_added w (suc i) k

add_workers-only :
    (t : Op → Bool) (w : World) (i k : ℕ)
    → ((j : ℕ) → t (adds j) ≡ false)
    → count_if t (add_workers w i k).0 ≡ 0
unfolding add_workers
add_workers-only t w i zero h = refl
add_workers-only t w i (suc k) h = ground (arith, h i, add_workers-only t w (suc i) k h)

add_workers-fine : (w : World) (i k : ℕ) → is_fine (add_workers w i k).1 ≡ all_added w i k
unfolding add_workers
add_workers-fine w i zero = refl
add_workers-fine w i (suc k) = ground (arith, add_workers-fine w (suc i) k)

loop-only : (t : Op → Bool) (n : ℕ) → count_if t (loop n) ≡ (if t sleeps then n else 0)
loop-only t zero = ground arith
loop-only t (suc n) = ground (arith, loop-only t n)

-- The calls of one kind, which is not thread_add.
made_lem :
    (t : Op → Bool) (w : World)
    → w.calloc_ok ≡ true
    → ((j : ℕ) → t (adds j) ≡ false)
    → let (served, ret) = serve w (add_workers w 0 w.workers).1 in
      made t w
      ≡ (if t prf_init then 1 else 0)
        + (count_if t served
            + ((if is_fine ret then (if t sleeps then w.rounds else 0) else 0)
                + count_if t cleanup))
unfolding djb_run
made_lem t w c h =
    let (added, ret) = add_workers w 0 w.workers in
    let (served, res) = serve w ret in
    let slept = if is_fine res then loop w.rounds else [] in
    ground (
      arith,
      count_if-append t added (served ++ (slept ++ cleanup)),
      count_if-append t served (slept ++ cleanup),
      count_if-append t slept cleanup,
      add_workers-only t w 0 w.workers h,
      loop-only t w.rounds,
    )

djb_run-is_fine :
    (w : World)
    → w.calloc_ok ≡ true
    → is_fine (djb_run w).1 ≡ (all_added w 0 w.workers && (w.httpsrv_init && w.httpsrv_start))
unfolding djb_run
djb_run-is_fine w c = ground (arith, add_workers-fine w 0 w.workers)

-- When djb_run returns, with memory for its server: it succeeded just if all workers were added and
-- the server was initialised and started; it has slept only then. The threads were stopped, and
-- acs_exit and httpsrv_exit called, once each. acs_init was called only if the server could be
-- initialised, so acs_exit is also called without it. prf_init was called twice. The server is also
-- started if a worker could not be added.
pub djb_run-ends :
    (w : World)
    → w.calloc_ok ≡ true
    → let ok = all_added w 0 w.workers && (w.httpsrv_init && w.httpsrv_start) in
      (is_fine (djb_run w).1 ≡ ok)
      × (made is_sleep w ≡ (if ok then w.rounds else 0))
      × (made is_stop w ≡ 1)
      × (made is_exit w ≡ 1)
      × (made is_acs_exit w ≡ 1)
      × (made is_acs_init w ≡ (if w.httpsrv_init then 1 else 0))
      × (made is_start w ≡ (if w.httpsrv_init then 1 else 0))
      × (made is_prf_init w ≡ 2)
djb_run-ends w c =
    let ret = add_workers-fine w 0 w.workers in
    (
      djb_run-is_fine w c,
      ground (arith, ret, made_lem is_sleep w c (λ j. refl)),
      ground (arith, made_lem is_stop w c (λ j. refl)),
      ground (arith, made_lem is_exit w c (λ j. refl)),
      ground (arith, made_lem is_acs_exit w c (λ j. refl)),
      ground (arith, made_lem is_acs_init w c (λ j. refl)),
      ground (arith, made_lem is_start w c (λ j. refl)),
      ground (arith, made_lem is_prf_init w c (λ j. refl)),
    )
