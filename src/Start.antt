-- ===== src/Start.antt =====
-- djb_run and main: how djb starts and ends (server/djb.c).
pub mod Ends
use jumpbox.Base.{
  ℕ, zero, suc, ◌+◌, ◌≡◌, refl, Bool, true, false, not, ◌&&◌, ◌||◌, Option, none, some, List, [],
  ◌∷◌, ◌++◌, Text, txt, arith, ltb, leb, ◌==◌, if◌then◌else◌, strcaseeq, is_empty, length,
  get_elem?, count_if, count_if-append,
}

-- What an int that is returned says: not negative, or an error.
pub data Ret : Type 0 where
  fine failed : Ret

-- The result of thread_daemonize: the process that goes on, another one, or an error.
pub data Daemonized : Type 0 where
  child : Daemonized
  ended : Ret → Daemonized

-- Which calls succeed: `thread_add` by the number of the worker, `rounds` is how often both
-- thread_keep_running and thread_sleep say to go on. `beyond` is what a read behind the NULL at the
-- end of argv gets.
pub record World : Type 0 where
  pub thread_init : Bool
  pub calloc_ok : Bool
  pub workers : ℕ
  pub thread_add : ℕ → Bool
  pub httpsrv_init : Bool
  pub httpsrv_start : Bool
  pub rounds : ℕ
  pub log_set : Text → Bool
  pub daemonize : Option Text → Option Text → Daemonized
  pub beyond : ℕ → Option Text

-- The calls that the two functions make, first to last.
pub data Op : Type 0 where
  prf_init acs_init acs_exit httpsrv_init httpsrv_start httpsrv_exit sleeps stopall usage : Op
  adds : ℕ → Op
  daemonizes : Option Text → Option Text → Op

abbrev pub Ran : Type 0
Ran = List Op × Ret

-- The loop over the workers, from the i-th, with k to go; a failure ends it.
unfoldable pub add_workers : World → ℕ → ℕ → Ran
add_workers w i zero = ([], Ret.fine)
add_workers w i (suc k) =
    let (ops, ret) = add_workers w (suc i) k in
    if w.thread_add i then (adds i ∷ ops, ret) else (adds i ∷ [], Ret.failed)

abbrev pub loop : ℕ → List Op
loop zero = []
loop (suc n) = sleeps ∷ loop n

abbrev pub is_fine : Ret → Bool
is_fine Ret.fine = true
is_fine Ret.failed = false

-- The server, once the workers were started with the result `ret`.
abbrev pub serve : World → Ret → Ran
serve w ret =
    if w.httpsrv_init
    then (if w.httpsrv_start
        then (httpsrv_init ∷ acs_init ∷ httpsrv_start ∷ [], ret)
        else (httpsrv_init ∷ acs_init ∷ httpsrv_start ∷ [], Ret.failed))
    else (httpsrv_init ∷ [], Ret.failed)

-- thread_stopall and what follows.
abbrev pub cleanup : List Op
cleanup = stopall ∷ acs_exit ∷ prf_init ∷ httpsrv_exit ∷ []

unfoldable pub djb_run : World → Ran
unfolding add_workers
djb_run w =
    if w.calloc_ok
    then (let (added, ret) = add_workers w 0 w.workers in
        let (served, res) = serve w ret in
        (
          prf_init ∷ added ++ (served ++ ((if is_fine res then loop w.rounds else []) ++ cleanup)),
          res,
        ))
    else ([], Ret.failed)

-- argv[i]: after the last argument stands NULL.
abbrev pub arg : World → List Text → ℕ → Option Text
arg w argv i = if leb i (length argv) then get_elem? argv i else w.beyond i

-- strlen(argv[3]) > 0
abbrev pub is_text : Option Text → Bool
is_text none = false
is_text (some t) = not (is_empty t)

abbrev pub sets_log : World → Option Text → Bool
sets_log w none = true
sets_log w (some t) = w.log_set t

abbrev pub run_child : World → Daemonized → Ran
run_child w child = djb_run w
run_child w (ended ret) = ([], ret)

-- The branch "daemonize". The test `argc >= 2 || argc <= 5` holds there.
unfoldable pub main_daemonize : World → List Text → Ran
unfolding djb_run
main_daemonize w argv =
    let name = arg w argv 3 in
    if (leb 4 (length argv) && is_text name) && not (sets_log w name)
    then ([], Ret.failed)
    else (let pidfile = arg w argv 2 in
        let user = if leb 3 (length argv) then arg w argv 4 else none in
        let (ops, ret) = run_child w (w.daemonize pidfile user) in
        (daemonizes pidfile user ∷ ops, ret))

-- Whether argv[1], if there is one, is a command.
abbrev pub is_command : Option Text → Text → Bool
is_command none name = false
is_command (some t) name = strcaseeq t name

unfoldable pub main : World → List Text → Ran
unfolding main_daemonize
main w argv =
    if w.thread_init
    then (if ltb (length argv) 2
        then (usage ∷ [], Ret.failed)
        else (if is_command (get_elem? argv 1) (txt "daemonize")
            then main_daemonize w argv
            else (if is_command (get_elem? argv 1) (txt "run") && (length argv == 2)
                then djb_run w
                else (usage ∷ [], Ret.failed))))
    else ([], Ret.failed)
