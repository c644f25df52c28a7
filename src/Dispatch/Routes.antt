-- ===== src/Dispatch/Routes.antt =====
-- Which part of djb a request can change (server/djb.c).
use jumpbox.Base.{
  ℕ, ◌≡◌, ◌⊎◌, Bool, true, false, ◌&&◌, ◌||◌, Option, some, Text, txt, arith, strcaseeq, strncaseeq,
  inl, inr, Bool-cases,
}
use jumpbox.Http.{Client, Headers, update}
use jumpbox.Jansson.{Jansson}
use jumpbox.Proxy.Queues.{write}
use jumpbox.Prefs.Handle.{Prefs, prf_handle, prf_set, prf_parse_preferences}
use jumpbox.Exit.{djb_handle_proxy}
use jumpbox.Dispatch.{Outside, Djb, is_api, djb_handle_api, djb_handle}

-- Whether a request asks djb itself for an API below a prefix, or for just a URI.
abbrev pub asks : Client → Text → ℕ → Bool
asks c prefix n = is_api c.hostname && strncaseeq c.uri prefix n

abbrev pub asks_exactly : Client → Text → Bool
asks_exactly c uri = is_api c.hostname && strcaseeq c.uri uri

module _ (J : Jansson) (o : Outside) where
  -- The API of the preferences leaves the bridge list as it is.
  prf_handle-list :
      (hcl : ℕ) (c : Client) (p : Prefs J.Json)
      → (prf_handle J hcl c p).0.l_bridge_access_list ≡ p.l_bridge_access_list
  unfolding prf_handle prf_set prf_parse_preferences
  prf_handle-list hcl c p = ground arith

  -- Of the requests that libfutil can parse, only those to one of djb's own hosts change what
  -- follows: the preferences only those below /preferences/, except the bridge list, which only
  -- those below /push/ change; the rendezvous those below /rendezvous/, the processes those for the
  -- two URIs below /launch/, and the dance those below /acs/, /push/ and /rendezvous/; only
  -- /shutdown/ stops djb. The name of the exit changes only by requests to other hosts.
  pub djb_handle-frame :
      (hcl : ℕ) (dh : Option Headers) (d : Djb J.Json) {c : Client}
      → o.parse_request (d.proxy.client hcl) ≡ some c
      → let e = (djb_handle J o hcl dh d).0 in
        ((e.prefs ≡ record d.prefs { l_bridge_access_list = e.prefs.l_bridge_access_list })
          ⊎ (asks c (txt "/preferences/") 12 ≡ true))
        × ((e.prefs.l_bridge_access_list ≡ d.prefs.l_bridge_access_list)
            ⊎ (asks c (txt "/push/") 6 ≡ true))
        × ((e.rdv ≡ d.rdv) ⊎ (asks c (txt "/rendezvous/") 12 ≡ true))
        × ((e.processes ≡ d.processes)
            ⊎ (asks_exactly c (txt "/launch/stegotorus/") || asks_exactly c (txt "/launch/tor/")
                ≡ true))
        × ((e.acs ≡ d.acs)
            ⊎ (asks c (txt "/acs/") 5 || (asks c (txt "/push/") 6 || asks c (txt "/rendezvous/") 12)
                ≡ true))
        × ((e.exit ≡ d.exit) ⊎ (is_api c.hostname ≡ false))
        × ((e.running ≡ d.running) ⊎ (asks_exactly c (txt "/shutdown/") ≡ true))
  unfolding djb_handle djb_handle_api djb_handle_proxy update
  djb_handle-frame hcl dh d {c} p = (
    elim (Bool-cases (asks c (txt "/preferences/") 12)) [
      | inl t ↦ inr t
      | inr f ↦ inl (ground arith)
    ],
    elim (Bool-cases (asks c (txt "/push/") 6)) [
      | inl t ↦ inr t
      | inr f ↦ inl (ground (arith, prf_handle-list hcl ((write hcl c d.proxy).client hcl) d.prefs))
    ],
    elim (Bool-cases (asks c (txt "/rendezvous/") 12)) [
      | inl t ↦ inr t
      | inr f ↦ inl (ground arith)
    ],
    elim (Bool-cases
        (asks_exactly c (txt "/launch/stegotorus/") || asks_exactly c (txt "/launch/tor/"))) [
          | inl t ↦ inr t
          | inr f ↦ inl (ground arith)
        ],
    elim (Bool-cases
        (asks c (txt "/acs/") 5 || (asks c (txt "/push/") 6 || asks c (txt "/rendezvous/") 12))) [
          | inl t ↦ inr t
          | inr f ↦ inl (ground arith)
        ],
    elim (Bool-cases (is_api c.hostname)) [ inl t ↦ inl (ground arith) | inr f ↦ inr f ],
    elim (Bool-cases (asks_exactly c (txt "/shutdown/"))) [
      | inl t ↦ inr t
      | inr f ↦ inl (ground arith)
    ],
  )
