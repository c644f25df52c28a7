-- ===== src/Launch.antt =====
-- djb_launch, djb_launch_st and djb_launch_tor: the processes that djb starts (server/djb.c).
pub mod Running
use jumpbox.Base.{
  ℕ, zero, suc, Bool, true, false, not, ◌&&◌, Option, none, some, List, [], ◌∷◌, ◌++◌, Text, txt,
  ltb, ◌==◌, if◌then◌else◌, length, take,
}
use jumpbox.Http.{Event, Status, djb_ok, djb_err}
use jumpbox.Jansson.{Jansson}
use jumpbox.Reply.{djb_result}
use jumpbox.Prefs.Values.{Values}
use jumpbox.Prefs.Argv.{Argv, built, failed, fault, prf_get_argv}
use jumpbox.Prefs.Argv

-- libfutil's snprintfok, process_spawn, which gives the number of the process, process_cmdline,
-- which gives the line that fits, and the success of aprintf for a text.
pub record World : Type 0 where
  pub snprintfok : ℕ → ℕ → Bool
  pub spawn : List (Option Text) → Text → ℕ
  pub cmdline : List (Option Text) → Text
  pub aprintf_ok : Text → Bool

pub data ProcessOp : Type 0 where
  terminate : ℕ → ProcessOp  -- process_terminate(num, false)
  spawned : ℕ → List (Option Text) → Text → ProcessOp  -- process_spawn, with its result

-- l_st_pnum and l_tor_pnum, 0 for no process, the calls so far, first to last, and whether NULL or
-- an uninitialised pointer was read.
pub record Processes : Type 0 where
  pub l_st_pnum : ℕ
  pub l_tor_pnum : ℕ
  pub ops : List ProcessOp
  pub crashed : Bool

-- What follows the last '/', or all of the text: strrchr.
unfoldable pub after_slash : Text → Text → Text
after_slash kept [] = kept
after_slash kept (c ∷ s) = after_slash (if c == b'/' then s else kept) s

unfoldable pub logfile_of : Text → Text
unfolding after_slash
logfile_of exe = txt "/tmp/djb_" ++ (after_slash exe exe ++ txt ".log")

-- The number of the new process, the calls, and the answer.
abbrev pub Launched : Type 0
Launched = ℕ × List ProcessOp × List Event

abbrev pub stop_old : ℕ → List ProcessOp
stop_old num = if num == 0 then [] else terminate num ∷ []

abbrev pub is_running : ℕ → Bool
is_running num = ltb 0 num

abbrev pub launch_text : World → List (Option Text) → Text → ℕ → Text
launch_text w argv logfile num =
    (if is_running num then txt "Launched" else txt "Failed to launch")
    ++ (txt " with logfile " ++ (take 127 logfile ++ (txt ": " ++ w.cmdline argv)))

unfoldable pub tor_argv : List (Option Text)
tor_argv =
    some (txt "tor") ∷ some (txt "-f") ∷ some (txt "/usr/share/saferdefiance/djb.torrc") ∷ none ∷ []

abbrev pub st_done : Launched → Processes → Processes × List Event
st_done (num, ops, es) p = (record p { l_st_pnum = num; ops = p.ops ++ ops }, es)

abbrev pub tor_done : Launched → Processes → Processes × List Event
tor_done (num, ops, es) p = (record p { l_tor_pnum = num; ops = p.ops ++ ops }, es)

abbrev pub crash : Processes → Processes × List Event
crash p = (record p { crashed = true }, [])

module _ (J : Jansson) where
  -- The answer needs memory for its text.
  abbrev pub launch_answer : World → ℕ → Text → ℕ → List Event
  launch_answer w hcl text num =
      if w.aprintf_ok text
      then djb_result J hcl (if is_running num then djb_ok else djb_err) text
      else djb_result J hcl djb_err (txt "Could not format error")

  abbrev pub launched : World → ℕ → List (Option Text) → Text → ℕ → List ProcessOp → Launched
  launched w hcl argv logfile num ops =
      (num, ops, launch_answer w hcl (launch_text w argv logfile num) num)

  -- argv[0] is `exe`.
  unfoldable pub djb_launch : World → ℕ → Text → List (Option Text) → ℕ → Launched
  unfolding logfile_of
  djb_launch w hcl exe argv num =
      let logfile = logfile_of exe in
      if w.snprintfok (length logfile) 128
      then (let n = w.spawn argv logfile in
          launched w hcl argv logfile n (stop_old num ++ spawned n argv logfile ∷ []))
      else launched w hcl argv logfile 0 (stop_old num)

  -- Where prf_get_argv has failed, argv was never written.
  abbrev pub launch_argv : World → ℕ → Argv → Processes → Processes × List Event
  launch_argv w hcl (built argc (some exe ∷ rest)) p =
      st_done (djb_launch w hcl exe (some exe ∷ rest) p.l_st_pnum) p
  launch_argv w hcl (built argc (none ∷ rest)) p = crash p
  launch_argv w hcl (built argc []) p = crash p
  launch_argv w hcl failed p = crash p
  launch_argv w hcl fault p = crash p

  unfoldable pub djb_launch_st :
      World → Argv.World → ℕ → Values → Processes → Processes × List Event
  unfolding djb_launch prf_get_argv
  djb_launch_st w aw hcl values p = launch_argv w hcl (prf_get_argv aw values) p

  unfoldable pub djb_launch_tor : World → ℕ → Processes → Processes × List Event
  unfolding djb_launch tor_argv
  djb_launch_tor w hcl p = tor_done (djb_launch w hcl (txt "tor") tor_argv p.l_tor_pnum) p

-- A request to launch one of the two.
pub data Launching : Type 0 where
  st : World → Argv.World → ℕ → Values → Launching
  tor : World → ℕ → Launching

-- Before the first launch.
abbrev pub no_processes : Processes
no_processes = record { l_st_pnum = 0; l_tor_pnum = 0; ops = []; crashed = false }

abbrev pub run_launches : Jansson → List Launching → Processes → Processes
run_launches J [] p = p
run_launches J (st w aw hcl values ∷ ls) p = run_launches J ls (djb_launch_st J w aw hcl values p).0
run_launches J (tor w hcl ∷ ls) p = run_launches J ls (djb_launch_tor J w hcl p).0
