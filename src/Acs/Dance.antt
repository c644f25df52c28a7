-- ===== src/Acs/Dance.antt =====
-- The dance itself: the requests that djb makes through the proxy queues, and the callbacks
-- that take their answers (server/acs.c).
use jumpbox.Base.{
  ℕ, ◌+◌, ◌*◌, ◌%◌, ◌^◌, Bool, true, false, Option, none, some, [], ◌++◌, Text, txt, ◌==◌,
  if◌then◌else◌,
}
use jumpbox.Http.{
  Client, Headers, Callback, initial_answer, redirect_answer, djb_err, djb_ok, djb_done, m_get,
  close, destroy, abort,
}
use jumpbox.Atoi.{atoi}
use jumpbox.Decimal.{print_decimal}
use jumpbox.Jansson.{Jansson}
use jumpbox.Proxy.Queues.{Proxy, say, write, djb_proxy_add}
use jumpbox.Acs.State.{Acs, World, ticked, acs_status, acs_sitdown, acs_keep_running}
use jumpbox.Prefs.Bridges.{prf_set_bridge_access_list}
use jumpbox.Acs.Net.{acs_net_string, acs_net_number}

-- The user data that djb_create_userdata makes, with acs_request's callback.
abbrev pub internal_headers : Callback → Headers
internal_headers cb = record {
  push = some cb;
  httpcode = [];
  httptext = [];
  seqno = [];
  setcookie = [];
  cookie = [];
}

module _ (J : Jansson) (w : World) where
  -- The state of this module and of the queues, with what the function returns.
  abbrev pub Danced : Type 0
  Danced = Acs J.Json × Proxy × Bool

  -- The request of a new client; the first flag is djb_create_userdata's success, the second
  -- that of the mcalloc in djb_proxy_add.
  abbrev pub send : Bool → Bool → Callback → Text → Text → ℕ → Acs J.Json → Proxy → Danced
  send userdata_ok calloc_ok cb hostname uri hcl a p =
      if userdata_ok
      then (let c = record (p.client hcl) {
        user = some (internal_headers cb);
        method = m_get;
        hostname = hostname;
        rawuri = uri;
      } in
          let (q, ok) = djb_proxy_add calloc_ok hcl (write hcl c p) in (ticked (ticked a), q, ok))
      else (
        acs_status w djb_err (txt "Failed to create userdata") (ticked a),
        say (close hcl) p,
        false,
      )

  abbrev pub request_from : Callback → Text → Text → Option ℕ → Acs J.Json → Proxy → Danced
  request_from cb hostname uri none a p =
      (acs_status w djb_err (txt "Failed to create request") a, p, false)
  request_from cb hostname uri (some hcl) a p =
      send (w.calloc_ok a.tick) (w.calloc_ok (ℕ.suc a.tick)) cb hostname uri hcl a p

  unfoldable pub acs_request : Callback → Text → Text → Acs J.Json → Proxy → Danced
  unfolding acs_keep_running djb_proxy_add
  acs_request cb hostname uri a p =
      let (b, running) = acs_keep_running w a in
      if running then request_from cb hostname uri (w.newcl b.tick) (ticked b) p else (b, p, true)

  -- What follows acs_request in acs_initial and acs_redirect.
  abbrev pub sent : Text → Danced → Acs J.Json × Proxy
  sent msg (a, p, true) = (acs_status w djb_ok msg a, p)
  sent msg (a, p, false) = (acs_sitdown a, p)

  abbrev pub request_to : Callback → Text → Acs J.Json × Option Text → Proxy → Acs J.Json × Proxy
  request_to cb msg (a, none) p = (a, p)
  request_to cb msg (a, some host) p = sent msg (acs_request cb host (txt "/") a p)

  unfoldable pub acs_redirect : Acs J.Json → Proxy → Acs J.Json × Proxy
  unfolding acs_request
  acs_redirect a p =
      request_to redirect_answer (txt "Dancing: Redirect Request sent")
        (acs_net_string J w (txt "redirect") (txt "Redirect Gateway") a) p

  unfoldable pub acs_initial : Acs J.Json → Proxy → Acs J.Json × Proxy
  unfolding acs_request
  acs_initial a p =
      request_to initial_answer (txt "Dancing: Initial Request sent")
        (acs_net_string J w (txt "initial") (txt "Initial Gateway") a) p

  -- After the sleep.
  abbrev pub slept : Bool → Acs J.Json → Proxy → Acs J.Json × Proxy
  slept false a p = (acs_status w djb_err (txt "Moonwalking aborted") a, p)
  slept true a p =
      let (b, running) = acs_keep_running w (acs_status w djb_ok (txt "Moonwalk done") a) in
      if running then acs_redirect b p else (b, p)

  abbrev pub moonwalk : ℕ → Acs J.Json → Proxy → Acs J.Json × Proxy
  moonwalk secs a p =
      let b =
        acs_status w djb_ok (txt "Moonwalking for " ++ (print_decimal secs ++ txt " seconds..."))
          a in
      slept (w.sleep b.tick (secs * 1000 % 2 ^ 64)) (ticked b) p

  -- w % d_window faults at 0.
  abbrev pub wait_for : ℕ → Acs J.Json × Option ℕ → Proxy → Acs J.Json × Proxy
  wait_for window (a, none) p = (a, p)
  wait_for window (a, some wait) p =
      if window == 0
      then (ticked a, say abort p)
      else moonwalk ((wait + w.random a.tick % window) % 2 ^ 64) (ticked a) p

  abbrev pub window_for : Acs J.Json × Option ℕ → Proxy → Acs J.Json × Proxy
  window_for (a, none) p = (a, p)
  window_for (a, some window) p =
      wait_for window (acs_net_number J w (txt "wait") (txt "Delay wait") a) p

  unfoldable pub acs_wait : Acs J.Json → Proxy → Acs J.Json × Proxy
  unfolding acs_redirect acs_keep_running
  acs_wait a p = window_for (acs_net_number J w (txt "window") (txt "Delay window") a) p

  abbrev pub outcome : Text → ℕ → Text → Text
  outcome what code text = txt "ACS " ++ (what ++ (print_decimal code ++ (txt " " ++ text)))

  abbrev pub returns_true : Acs J.Json × Proxy → Danced
  returns_true (a, p) = (a, p, true)

  -- The answer's code was not 200.
  abbrev pub failed : Text → ℕ → ℕ → Text → Acs J.Json → Proxy → Danced
  failed what hcl code text a p =
      (acs_sitdown (acs_status w djb_err (outcome what code text) a), say (destroy hcl) p, true)

  unfoldable pub acs_initial_answer : Headers → ℕ → Acs J.Json → Proxy → Danced
  unfolding acs_wait acs_keep_running
  acs_initial_answer sdh hcl a p =
      let code = atoi sdh.httpcode in
      if code == 200
      then (let (b, running) =
            acs_keep_running w
              (acs_status w djb_ok (outcome (txt "Initial success: HTTP ") code sdh.httptext) a) in
          if running
          then returns_true (acs_wait b (say (destroy hcl) p))
          else (b, say (destroy hcl) p, true))
      else failed (txt "Initial failed: ") hcl code sdh.httptext a p

  -- A failure that does not release the client.
  abbrev pub gives_up : Text → Acs J.Json → Proxy → Danced
  gives_up msg a p = (acs_sitdown (acs_status w djb_err msg a), p, true)

  -- `ok` is what prf_set_bridge_access_list says.
  abbrev pub bridges_set : Bool → Acs J.Json → Acs J.Json
  bridges_set true a =
      acs_status w djb_done
        (txt "ACS completed successfully, you can launch Tor over StegoTorus over JumpBox/DGW")
        (acs_status w djb_ok (txt "ACS Dance complete") a)
  bridges_set false a =
      acs_status w djb_err (txt "Unable to parse ACS received Bridge Access List") a

  -- The result of the second callback: also the variable l_bridge_access_list of
  -- server/preferences.c, which prf_set_bridge_access_list sets.
  abbrev pub Redirected : Type 0
  Redirected = Acs J.Json × Proxy × Bool × Option J.Json

  abbrev pub with_list : Option J.Json → Danced → Redirected
  with_list list (a, p, over) = (a, p, over, list)

  abbrev pub stored : Option J.Json × Bool → ℕ → Text → ℕ → Acs J.Json → Proxy → Redirected
  stored (list, ok) code text hcl a p = (
    acs_sitdown (
        bridges_set ok (acs_status w djb_ok (outcome (txt "Redirect success: HTTP ") code text) a)),
    say (destroy hcl) p,
    true,
    list,
  )

  abbrev pub decoded : ℕ → Text → Option Text → ℕ → Option J.Json → Acs J.Json → Proxy → Redirected
  decoded code text none hcl list a p =
      with_list list (gives_up (txt "ACS Redirect failed: desteg failed") a p)
  decoded code text (some ans) hcl list a p =
      stored (prf_set_bridge_access_list J ans) code text hcl a p

  -- Without a body.
  abbrev pub reads_body : Client → Acs J.Json → Proxy → Danced
  reads_body sc a p =
      if sc.content_length == 0
      then gives_up (txt "ACS Redirect failed: no length") a p
      else (if w.readbody_alloc_ok a.tick
          then (ticked a, p, false)
          else gives_up (txt "ACS Redirect failed: no memory") (ticked a) p)

  abbrev pub redirect_body :
      Client → ℕ → Text → Option Text → ℕ → Option J.Json → Acs J.Json → Proxy → Redirected
  redirect_body sc code text none hcl list a p = with_list list (reads_body sc a p)
  redirect_body sc code text (some body) hcl list a p =
      decoded code text (w.steg_decode body sc.content_type) hcl list a p

  -- The list is l_bridge_access_list.
  unfoldable pub acs_redirect_answer :
      Client → Headers → ℕ → Option J.Json → Acs J.Json → Proxy → Redirected
  unfolding prf_set_bridge_access_list
  acs_redirect_answer sc sdh hcl list a p =
      let code = atoi sdh.httpcode in
      if code == 200
      then redirect_body sc code sdh.httptext sc.readbody hcl list a p
      else with_list list (failed (txt "Redirect failed: ") hcl code sdh.httptext a p)
