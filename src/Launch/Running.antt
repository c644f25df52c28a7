-- ===== src/Launch/Running.antt =====
-- Which of the processes that djb has started were not terminated (server/djb.c).
use jumpbox.Base.{
  ℕ, ◌+◌, ◌≡◌, ◌≢◌, Bool, false, Option, none, some, List, [], ◌∷◌, Text, txt, arith, ◌==◌,
  if◌then◌else◌, count_if, count_if-append,
}
use jumpbox.Jansson.{Jansson}
use jumpbox.Prefs.Values.{Values}
use jumpbox.Prefs.Argv.{Argv, built, failed, fault, prf_get_argv}
use jumpbox.Prefs.Argv
use jumpbox.Launch.{
  World, ProcessOp, terminate, spawned, Processes, djb_launch, launch_argv, djb_launch_st,
  djb_launch_tor, tor_argv, Launching, st, tor, no_processes, run_launches,
}

abbrev pub spawns : ℕ → ProcessOp → Bool
spawns n (spawned m argv logfile) = m == n
spawns n (terminate m) = false

abbrev pub stops : ℕ → ProcessOp → Bool
stops n (spawned m argv logfile) = false
stops n (terminate m) = m == n

abbrev pub is_num : ℕ → ℕ → ℕ
is_num n num = if num == n then 1 else 0

-- A process was started once more than it was terminated just if djb has its number.
abbrev pub IsTracked : ℕ → Processes → Type 0
IsTracked n p =
    count_if (spawns n) p.ops
    ≡ count_if (stops n) p.ops + (is_num n p.l_st_pnum + is_num n p.l_tor_pnum)

module _ (J : Jansson) (n : ℕ) (known : n ≢ 0) where
  djb_launch-is_num :
      (w : World) (hcl : ℕ) (exe : Text) (argv : List (Option Text)) (num : ℕ)
      → let (next, ops, es) = djb_launch J w hcl exe argv num in
        count_if (spawns n) ops + is_num n num ≡ count_if (stops n) ops + is_num n next
  unfolding djb_launch
  djb_launch-is_num w hcl exe argv num = ground arith

  launch_argv-IsTracked :
      (w : World) (hcl : ℕ) (a : Argv) (p : Processes)
      → IsTracked n p
      → IsTracked n (launch_argv J w hcl a p).0
  launch_argv-IsTracked w hcl (built argc []) p h = h
  launch_argv-IsTracked w hcl (built argc (none ∷ rest)) p h = h
  launch_argv-IsTracked w hcl failed p h = h
  launch_argv-IsTracked w hcl fault p h = h
  launch_argv-IsTracked w hcl (built argc (some exe ∷ rest)) p h =
      let (next, ops, es) = djb_launch J w hcl exe (some exe ∷ rest) p.l_st_pnum in
      omega (
        arith,
        djb_launch-is_num w hcl exe (some exe ∷ rest) p.l_st_pnum,
        count_if-append (spawns n) p.ops ops,
        count_if-append (stops n) p.ops ops,
      )

  djb_launch_st-IsTracked :
      (w : World) (aw : Argv.World) (hcl : ℕ) (values : Values) (p : Processes)
      → IsTracked n p
      → IsTracked n (djb_launch_st J w aw hcl values p).0
  unfolding djb_launch_st
  djb_launch_st-IsTracked w aw hcl values p h =
      launch_argv-IsTracked w hcl (prf_get_argv aw values) p h

  djb_launch_tor-IsTracked :
      (w : World) (hcl : ℕ) (p : Processes)
      → IsTracked n p
      → IsTracked n (djb_launch_tor J w hcl p).0
  unfolding djb_launch_tor
  djb_launch_tor-IsTracked w hcl p h =
      let (next, ops, es) = djb_launch J w hcl (txt "tor") tor_argv p.l_tor_pnum in
      omega (
        arith,
        djb_launch-is_num w hcl (txt "tor") tor_argv p.l_tor_pnum,
        count_if-append (spawns n) p.ops ops,
        count_if-append (stops n) p.ops ops,
      )

  -- After any launches of StegoTorus and Tor, in any order and with any preferences, a process
  -- number other than 0 was started as often as it was terminated, and once more for each of
  -- l_st_pnum and l_tor_pnum that it is.
  pub run_launches-IsTracked : (ls : List Launching) → IsTracked n (run_launches J ls no_processes)
  run_launches-IsTracked ls = go ls no_processes (ground arith)
    where
      go : (l : List Launching) (p : Processes) → IsTracked n p → IsTracked n (run_launches J l p)
      go [] p h = h
      go (st w aw hcl values ∷ l) p h =
          go l (djb_launch_st J w aw hcl values p).0 (djb_launch_st-IsTracked w aw hcl values p h)
      go (tor w hcl ∷ l) p h =
          go l (djb_launch_tor J w hcl p).0 (djb_launch_tor-IsTracked w hcl p h)
