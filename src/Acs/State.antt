-- ===== src/Acs/State.antt =====
-- The module's variables, acs_status, acs_sitdown and acs_keep_running (server/acs.c).
use jumpbox.Base.{
  ℕ, Bool, true, false, not, ◌||◌, Option, List, ◌∷◌, [], ◌++◌, Text, txt, length, if◌then◌else◌,
}
use jumpbox.Http.{Status, djb_err}

-- The mutexes are two flags, and `broken` says that one was locked while held, unlocked while free,
-- or that l_dancing_mutex was locked inside l_status_mutex. `tick` counts the calls of the World.
pub record Acs (Json : Type 0) : Type 0 where
  pub l_status : Status
  pub l_message : Text
  pub l_messages : List (Status × Text)
  pub l_dancing : Bool
  pub l_net : Option Json
  pub status_held : Bool
  pub dancing_held : Bool
  pub broken : Bool
  pub tick : ℕ

-- What the module takes from outside, each call by its number: libfutil's snprintfok, mcalloc,
-- thread_keep_running, thread_sleep, generate_random_number, httpsrv_newcl,
-- httpsrv_readbody_alloc, parse_iso8601_interval and steg_decode, and time.
pub record World : Type 0 where
  pub snprintfok : ℕ → ℕ → Bool
  pub calloc_ok : ℕ → Bool
  pub keep_running : ℕ → Bool
  pub sleep : ℕ → ℕ → Bool
  pub random : ℕ → ℕ
  pub newcl : ℕ → Option ℕ
  pub readbody_alloc_ok : ℕ → Bool
  pub parse_interval : Text → Option (ℕ × ℕ)
  pub steg_decode : Text → Text → Option Text
  pub now : ℕ → ℕ

module _ {Json : Type 0} where
  abbrev pub lock_status : Acs Json → Acs Json
  lock_status a = record a { status_held = true; broken = a.broken || a.status_held }

  abbrev pub unlock_status : Acs Json → Acs Json
  unlock_status a = record a { status_held = false; broken = a.broken || not a.status_held }

  abbrev pub lock_dancing : Acs Json → Acs Json
  lock_dancing a = record a {
    dancing_held = true;
    broken = a.broken || (a.dancing_held || a.status_held);
  }

  abbrev pub unlock_dancing : Acs Json → Acs Json
  unlock_dancing a = record a { dancing_held = false; broken = a.broken || not a.dancing_held }

  abbrev pub ticked : Acs Json → Acs Json
  ticked a = record a { tick = ℕ.suc a.tick }

  -- l_message holds 256 bytes.
  abbrev format_message : World → Status → Text → Acs Json → Acs Json
  format_message w status text a =
      if w.snprintfok (length text) 256
      then record a { l_status = status; l_message = text }
      else record a { l_status = djb_err; l_message = txt "Message too long" }

  abbrev keep_message : World → Acs Json → Acs Json
  keep_message w a =
      if w.calloc_ok a.tick
      then record (ticked a) { l_messages = a.l_messages ++ (a.l_status, a.l_message) ∷ [] }
      else record (ticked a) { l_status = djb_err }

  unfoldable pub acs_status : World → Status → Text → Acs Json → Acs Json
  acs_status w status text a =
      unlock_status (keep_message w (format_message w status text (lock_status a)))

  unfoldable pub acs_sitdown : Acs Json → Acs Json
  acs_sitdown a = unlock_dancing (record (lock_dancing a) { l_dancing = false })

  unfoldable pub acs_keep_running : World → Acs Json → Acs Json × Bool
  acs_keep_running w a = if w.keep_running a.tick then (ticked a, true) else (
    acs_sitdown (acs_status w djb_err (txt "ACS Dance slipped, aborting") (ticked a)),
    false,
  )

  -- acs_init, without the mutexes' initialisation.
  unfoldable pub acs_init : World → Acs Json → Acs Json
  acs_init w a =
      acs_status w Status.djb_ok (txt "ACS Dancer Initialized")
        (record a { l_messages = []; l_message = [] })
