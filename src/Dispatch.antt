-- ===== src/Dispatch.antt =====
-- The state of djb as a whole, and the handlers that libfutil calls for a client: djb_accept,
-- djb_header, djb_handle, which gives a request to one of the parts, and djb_done (server/djb.c).
pub mod Routes
use jumpbox.Base.{
  ℕ, Bool, true, false, ◌||◌, Option, none, some, List, [], ◌∷◌, ◌++◌, Text, txt, strcaseeq,
  strncaseeq, text_eq, if◌then◌else◌,
}
use jumpbox.Http.{Client, Headers, Event, abort, answer_ok, css, html, done}
use jumpbox.Jansson.{Jansson}
use jumpbox.Reply.{djb_error}
use jumpbox.Proxy.Queues.{Proxy, say, write, djb_pull}
use jumpbox.Proxy.Push.{djb_push}
use jumpbox.Prefs.Handle.{Prefs, prf_handle}
use jumpbox.Prefs.Argv.{World as ArgvWorld}
use jumpbox.Acs.State.{Acs, World as AcsWorld}
use jumpbox.Acs.Callbacks.{push_callback}
use jumpbox.Acs.Progress.{acs_handle}
use jumpbox.Rendezvous.State.{Rdv, World as RdvWorld}
use jumpbox.Rendezvous.Handle.{rdv_handle}
use jumpbox.Launch.{Processes, djb_launch_st, djb_launch_tor, World as LaunchWorld}
use jumpbox.Pages.{djb_html_css}
use jumpbox.Pages.Status.{djb_status}
use jumpbox.Pages.Tables.{World as StatusWorld}
use jumpbox.Exit.{Exit, djb_handle_proxy}

-- What one request takes from outside: the parts' worlds, whether djb was built with
-- DJB_RENDEZVOUS, getenv("DJB_FORCED_HOSTNAME") and the size of a hostname. httpsrv_parse_request
-- gives the client with its parsed fields, or `none` after it has answered with an error itself.
pub record Outside : Type 0 where
  pub acs : AcsWorld
  pub argv : ArgvWorld
  pub rdv : RdvWorld
  pub launch : LaunchWorld
  pub status : StatusWorld
  pub rendezvous : Bool
  pub forced_hostname : Option Text
  pub hostname_size : ℕ
  pub parse_request : Client → Option Client
  pub misc_map : Text → Headers → Option Headers
  pub calloc_ok : Bool

-- The variables of all parts. `waiting` are the clients that wait in acs_progress, `running` is
-- false after thread_stop_running.
pub record Djb (Json : Type 0) : Type 0 where
  pub proxy : Proxy
  pub acs : Acs Json
  pub prefs : Prefs Json
  pub rdv : Rdv
  pub exit : Exit
  pub processes : Processes
  pub waiting : List ℕ
  pub running : Bool

-- Calls, first to last, behind those that were made.
abbrev pub say_all : List Event → Proxy → Proxy
say_all [] p = p
say_all (e ∷ es) p = say_all es (say e p)

abbrev pub empty_headers : Headers
empty_headers = record {
  push = none;
  httpcode = [];
  httptext = [];
  seqno = [];
  setcookie = [];
  cookie = [];
}

abbrev pub set_user : ℕ → Headers → Proxy → Proxy
set_user hcl dh p = write hcl (record (p.client hcl) { user = some dh }) p

unfoldable pub djb_create_userdata : Bool → ℕ → Proxy → Proxy × Bool
djb_create_userdata calloc_ok hcl p =
    if calloc_ok then (set_user hcl empty_headers p, true) else (p, false)

unfoldable pub djb_accept : Bool → ℕ → Proxy → Proxy
unfolding djb_create_userdata
djb_accept calloc_ok hcl p =
    let (q, ok) = djb_create_userdata calloc_ok hcl p in
    if ok then q else say_all (djb_error hcl 500 (txt "Out of memory")) q

abbrev pub mapped : ℕ → Option Headers → Proxy → Proxy
mapped hcl none p = p
mapped hcl (some dh) p = set_user hcl dh p

-- libfutil's misc_map stores the value of a header that djb_headers lists.
unfoldable pub djb_header : (Text → Headers → Option Headers) → ℕ → Headers → Text → Proxy → Proxy
djb_header misc_map hcl dh line p = mapped hcl (misc_map line dh) p

abbrev pub forget : ℕ → Option Headers → Proxy → Proxy
forget hcl none p = say abort p
forget hcl (some dh) p = set_user hcl empty_headers p

unfoldable pub djb_done : ℕ → Proxy → Proxy
djb_done hcl p = forget hcl (p.client hcl).user p

-- The host names of djb itself.
unfoldable pub is_api : Text → Bool
is_api hostname =
    text_eq hostname (txt "127.0.0.1:6543")
    || (text_eq hostname (txt "[::1]:6543") || text_eq hostname (txt "localhost:6543"))

module _ (J : Jansson) where
  abbrev pub Handled : Type 0
  Handled = Djb J.Json × Bool

  abbrev pub tell : List Event → Djb J.Json → Djb J.Json
  tell es d = record d { proxy = say_all es d.proxy }

  -- A push reads the headers of the client.
  abbrev pub to_push : Outside → ℕ → Option Headers → Djb J.Json → Handled
  to_push o hcl none d = (record d { proxy = say abort d.proxy }, true)
  to_push o hcl (some dh) d =
      let ((a, list), p, ok) =
        djb_push (push_callback J o.acs) hcl dh (d.acs, d.prefs.l_bridge_access_list) d.proxy in
      (record d { acs = a; prefs = record d.prefs { l_bridge_access_list = list }; proxy = p }, ok)

  -- A request that waits for a message is answered by progress_wake.
  abbrev pub reply_or_wait : ℕ → Option (List Event) → Djb J.Json → Djb J.Json
  reply_or_wait hcl none d = record d { waiting = d.waiting ++ hcl ∷ [] }
  reply_or_wait hcl (some es) d = tell es d

  abbrev pub to_acs : Outside → ℕ → Djb J.Json → Handled
  to_acs o hcl d =
      let (a, p, reply, ok) = acs_handle J o.acs hcl (d.proxy.client hcl) d.acs d.proxy in
      (reply_or_wait hcl reply (record d { acs = a; proxy = p }), ok)

  abbrev pub to_rendezvous : Outside → ℕ → Djb J.Json → Handled
  to_rendezvous o hcl d =
      if o.rendezvous
      then (let (a, r) = rdv_handle J o.acs o.rdv hcl (d.proxy.client hcl) d.acs d.rdv in
          (record d { acs = a; rdv = r }, false))
      else (tell (djb_error hcl 500 (txt "Rendezvous module not enabled")) d, false)

  abbrev pub to_preferences : ℕ → Djb J.Json → Handled
  to_preferences hcl d =
      let (p, es) = prf_handle J hcl (d.proxy.client hcl) d.prefs in
      (tell es (record d { prefs = p }), false)

  abbrev pub to_shutdown : ℕ → Djb J.Json → Handled
  to_shutdown hcl d =
      (record (tell (djb_error hcl 200 (txt "Shutting down")) d) { running = false }, true)

  abbrev pub to_launch : Processes × List Event → Djb J.Json → Handled
  to_launch (ps, es) d = (tell es (record d { processes = ps }), false)

  abbrev pub to_css : ℕ → Djb J.Json → Handled
  to_css hcl d = (tell (answer_ok hcl css ∷ djb_html_css hcl ++ done hcl ∷ []) d, false)

  -- The later tests, which compare the whole URI.
  abbrev pub by_uri : Outside → ℕ → Text → Djb J.Json → Handled
  by_uri o hcl uri d =
      if strcaseeq uri (txt "/shutdown/")
      then to_shutdown hcl d
      else (if strcaseeq uri (txt "/launch/stegotorus/")
          then to_launch (djb_launch_st J o.launch o.argv hcl d.prefs.l_values d.processes) d
          else (if strcaseeq uri (txt "/launch/tor/")
              then to_launch (djb_launch_tor J o.launch hcl d.processes) d
              else (if strcaseeq uri (txt "/")
                  then (tell (djb_status o.status hcl d.proxy) d, false)
                  else (if strcaseeq uri (txt "/djb.css")
                      then to_css hcl d
                      else (tell (djb_error hcl 404 (txt "No such DJB API request")) d, false)))))

  -- `dh` is the client's user data.
  unfoldable pub djb_handle_api : Outside → ℕ → Option Headers → Djb J.Json → Handled
  djb_handle_api o hcl dh d =
      let uri = (d.proxy.client hcl).uri in
      if strncaseeq uri (txt "/pull/") 6
      then (let (p, ok) = djb_pull hcl d.proxy in (record d { proxy = p }, ok))
      else (if strncaseeq uri (txt "/push/") 6
          then to_push o hcl dh d
          else (if strncaseeq uri (txt "/acs/") 5
              then to_acs o hcl d
              else (if strncaseeq uri (txt "/rendezvous/") 12
                  then to_rendezvous o hcl d
                  else (if strncaseeq uri (txt "/preferences/") 12
                      then to_preferences hcl d
                      else by_uri o hcl uri d))))

  abbrev pub to_proxy : Outside → ℕ → Djb J.Json → Handled
  to_proxy o hcl d =
      let (e, p, ok) =
        djb_handle_proxy o.hostname_size o.forced_hostname d.prefs.l_values hcl d.exit d.proxy in
      (record d { exit = e; proxy = p }, ok)

  -- The client is the parsed one.
  abbrev pub route : Outside → ℕ → Option Headers → Djb J.Json → Handled
  route o hcl dh d =
      if is_api (d.proxy.client hcl).hostname then djb_handle_api o hcl dh d else to_proxy o hcl d

  abbrev pub handle_parsed : Outside → ℕ → Option Headers → Option Client → Djb J.Json → Handled
  handle_parsed o hcl dh none d = (d, true)
  handle_parsed o hcl dh (some c) d = route o hcl dh (record d { proxy = write hcl c d.proxy })

  unfoldable pub djb_handle : Outside → ℕ → Option Headers → Djb J.Json → Handled
  unfolding djb_handle_api is_api
  djb_handle o hcl dh d = handle_parsed o hcl dh (o.parse_request (d.proxy.client hcl)) d
