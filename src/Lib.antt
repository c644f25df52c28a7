-- ===== src/Lib.antt =====
-- JumpBox's daemon, djb (server/), modelled and verified.
--
-- djb sits between a browser, whose requests it takes as an HTTP proxy, and a plugin, which carries
-- them over a covert channel. The plugin asks for a request with /pull/ and brings the answer with
-- /push/, which names the request by its sequence number, DJB-SeqNo. djb makes requests of its own
-- through the same queues, for the ACS dance, which fetches the addresses of the bridges, and keeps
-- the preferences, from which it starts StegoTorus. For a rendezvous it peels the onion that an
-- image hides, layer by layer, down to the NET that the dance needs.
--
-- Parts, and where they are modelled:
-- - Base: texts as lists of bytes, the C library's tests on them, Boolean tests, lists.
-- - Http: a client as djb sees it, djb_headers_t and djb_status_t (server/djb.h), and the calls of
--   libfutil, which are recorded as events, newest first.
-- - SeqNo, Atoi, Decimal: what server/ uses of printf, sscanf and atoi.
-- - Jansson: the JSON library as an interface, whose functions are parameters.
-- - Reply: djb_error, djb_presult and djb_result (server/djb.c), as the calls that they make; the
--   queues have a djb_error that appends them to their events.
-- - Proxy: the queues of server/djb.c. Queues has the lists and djb_proxy_add, djb_pull,
--   djb_pull_post, djb_find_req, djb_find_phcl (as find_req and find_phcl) and djb_close; Forward
--   has djb_handle_forward; Push has djb_find_req_dh and djb_push; Body has djb_bodyfwd_done;
--   Workers has djb_worker_thread, in two steps that meet at its wait for a puller, and every
--   interleaving of all of these as a list of actions. Pending has the bag of waiting requests; Ledger, Conserve, Match, Find, Drain, Cycle and Ends have proofs.
-- - Prefs: server/preferences.c. Values has the keys, defaults and values, Updates
--   lemmas on them; Argv has prf_get_argv; Bridges has prf_set_bridge_access_list,
--   prf_parse_bridge_details and prf_br_list; Handle has prf_set, prf_parse_preferences,
--   prf_handle, prf_init and prf_exit.
-- - Acs: server/acs.c. State has the status, the messages and the mutexes; Net has acs_set_net,
--   acs_setup, acs_when and the members of the NET; Dance has the requests and the callbacks of
--   the dance; Progress has acs_progress, in two steps that meet at its wait, acs_handle and
--   acs_exit; Callbacks hands the answers that djb_push gets to the callbacks, which change the
--   dance and l_bridge_access_list; Runs has any order of the calls from outside. Locks, Laws,
--   Redirect and Moonwalk have proofs.
-- - Rendezvous: server/rendezvous.c. State has its variables, the onions as the macros read them,
--   and the calls of libdefiance; Reset has rdv_reset and its parts; Request rdv_gen_request;
--   Image rdv_image; Pow rdv_peel_pow and rdv_pow_worker; Peel rdv_peel and the other layers;
--   Handle rdv_file and rdv_handle; Runs any order of requests and of the workers' steps. Onions,
--   Ownership, Resets, Work, Answers and Layers have proofs.
-- - Launch: djb_launch, djb_launch_st and djb_launch_tor (server/djb.c), which start StegoTorus with
--   the command line of Prefs and Tor; Running has proofs.
-- - Pages: djb_html_css, djb_html_top and djb_html_tail (server/djb.c); Tables the
--   tables of the status page, Status djb_status, and Listing a proof on its lists of requests.
-- - Start: djb_run and main (server/djb.c), as the calls that they make; Ends has proofs.
-- - Exit: djb_handle_proxy (server/djb.c), which forces the host of proxied requests.
-- - Dispatch: the variables of all parts, and djb_accept, djb_header, djb_handle with
--   djb_handle_api, and djb_done (server/djb.c), which call the parts; Routes has proofs.
-- - Tests: a small JSON library, clients and queues, and the theorems at them.
--
-- State is passed explicitly. A client is a number, its address, and a store maps it to its fields,
-- so that two entries for one client see the same client. What djb calls from libfutil, the JSON
-- library, the clock, the environment and the allocator is a parameter: a World has an answer for
-- each call, by its number where calls can differ. A callback of djb_push is a parameter of the
-- queues, of which Conserve asks that it only adds to the new requests.
--
-- Bounds: a uint64_t has 16 hexadecimal and 20 decimal digits at most, which is the fuel of the two
-- printers; unsigned int wraps at 2 ^ 32 where prf_get_argv and the status page count. The loop in
-- which djb_run sleeps is given the number of its rounds. Other loops are structural.
--
-- Taken as given: strdup succeeds; references to JSON values are not counted; fassert, which only
-- logs, is left out, and so is assert(l_hs != NULL); handlers and workers interleave at the waits
-- of list_getnext and cond_wait.
--
-- Rendezvous: an onion is a number and what the macros read of it, so that freeing one and holding
-- it can be told apart. Its worker's thread is cut into the read of l_current_onion and the end of
-- the computation, and what it computes is a parameter of the second step; steps may come in any
-- order among the requests. Steganography, encryption, signatures and files are parameters. Numbers
-- of processes are not negative, and 0 is none.
--
-- Not modelled: prf_free_argv, which only frees; djb_usage, which only prints; plugin/ and
-- twistedServer/, which are other programs.
pub mod Acs
pub mod Atoi
pub mod Base
pub mod Decimal
pub mod Dispatch
pub mod Exit
pub mod Http
pub mod Jansson
pub mod Launch
pub mod Pages
pub mod Prefs
pub mod Proxy
pub mod Rendezvous
pub mod Reply
pub mod SeqNo
pub mod Start
pub mod Tests
