-- ===== src/Tests/Dispatch.antt =====
-- The theorems on the dispatch of requests and on the processes, at a shutdown that a web page
-- asks for, and at launches of both programs.
use jumpbox.Base.{
  ℕ, ◌≡◌, ◌≢◌, ◌⊎◌, refl, true, false, ◌||◌, none, some, List, [], ◌∷◌, Text, txt, arith,
}
use jumpbox.Http.{Client, m_get}
use jumpbox.Jansson.{Jansson}
use jumpbox.Prefs.Values.{no_values}
use jumpbox.Prefs.Handle.{Prefs}
use jumpbox.Rendezvous.State.{initial}
use jumpbox.Exit.{start}
use jumpbox.Launch.{World, Launching, st, tor, no_processes, run_launches}
use jumpbox.Launch.Running.{IsTracked, run_launches-IsTracked}
use jumpbox.Pages.Tables.{World as StatusWorld}
use jumpbox.Dispatch.{Outside, Djb, is_api, djb_handle}
use jumpbox.Dispatch.Routes.{asks, asks_exactly, djb_handle-frame}
use jumpbox.Tests.Fixtures.{Json, empty, jansson, client, no_headers, idle_proxy, ready}
use jumpbox.Tests.Fixtures
use jumpbox.Tests.Prefs
use jumpbox.Tests.Rendezvous

-- Process numbers follow from the program's name.
abbrev launch : World
launch = record {
  snprintfok = λ len size. true;
  spawn = λ argv logfile. 17;
  cmdline = λ argv. txt "tor";
  aprintf_ok = λ text. true;
}

-- Nothing runs.
abbrev pub status : StatusWorld
status = record {
  processes = [];
  threads = [];
  sessions = [];
  hcl_id = λ id. [];
  thread_id = λ id. [];
  yesno = λ b. txt "yes";
  the_request = λ hcl. txt "GET / HTTP/1.1";
  version = txt "1.0";
  git_orig = [];
  git_brch = [];
  git_hash = [];
  git_time = [];
}

abbrev outside : Outside
outside = record {
  acs = Fixtures.world;
  argv = Prefs.world;
  rdv = Rendezvous.world;
  launch = launch;
  status = status;
  rendezvous = true;
  forced_hostname = none;
  hostname_size = 256;
  parse_request = λ c. some c;
  misc_map = λ line dh. none;
  calloc_ok = true;
}

abbrev J : Jansson
J = jansson (λ text. some empty)

abbrev prefs : Prefs Json
prefs = record { l_values = no_values; l_current_preferences = none; l_bridge_access_list = none }

-- The browser, client 1, asks a host for a URI.
abbrev asking : Text → Text → Client
asking hostname uri = record (client 10 7 m_get) { hostname = hostname; uri = uri }

abbrev djb : Client → Djb Json
djb c = record {
  proxy = record idle_proxy { client = λ a. c };
  acs = ready;
  prefs = prefs;
  rdv = initial;
  exit = start;
  processes = no_processes;
  waiting = [];
  running = true;
}

-- A request to djb itself.
abbrev local : Client
local = asking (txt "127.0.0.1:6543") (txt "/launch/tor/")

djb_handle-frame_example :
    let d = djb local in
    let e = (djb_handle J outside 1 (some no_headers) d).0 in
    ((e.prefs ≡ record d.prefs { l_bridge_access_list = e.prefs.l_bridge_access_list })
      ⊎ (asks local (txt "/preferences/") 12 ≡ true))
    × ((e.prefs.l_bridge_access_list ≡ d.prefs.l_bridge_access_list)
        ⊎ (asks local (txt "/push/") 6 ≡ true))
    × ((e.rdv ≡ d.rdv) ⊎ (asks local (txt "/rendezvous/") 12 ≡ true))
    × ((e.processes ≡ d.processes)
        ⊎ (asks_exactly local (txt "/launch/stegotorus/") || asks_exactly local (txt "/launch/tor/")
            ≡ true))
    × ((e.acs ≡ d.acs)
        ⊎ (asks local (txt "/acs/") 5
              || (asks local (txt "/push/") 6 || asks local (txt "/rendezvous/") 12)
            ≡ true))
    × ((e.exit ≡ d.exit) ⊎ (is_api local.hostname ≡ false))
    × ((e.running ≡ d.running) ⊎ (asks_exactly local (txt "/shutdown/") ≡ true))
djb_handle-frame_example =
    djb_handle-frame J outside 1 (some no_headers) (djb local) {c = local} refl

seventeen : let n : ℕ = 17 in n ≢ 0
seventeen h = omega (arith, h)

abbrev launchings : List Launching
launchings = tor launch 1 ∷ st launch Prefs.world 1 no_values ∷ tor launch 1 ∷ []

run_launches-IsTracked_example : IsTracked 17 (run_launches J launchings no_processes)
run_launches-IsTracked_example = run_launches-IsTracked J 17 seventeen launchings
