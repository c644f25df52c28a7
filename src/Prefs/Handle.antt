-- ===== src/Prefs/Handle.antt =====
-- The API of the preferences: prf_set, prf_parse_preferences, prf_handle, prf_init and prf_exit.
pub mod Laws
use jumpbox.Base.{
  ℕ, zero, suc, ◌+◌, Bool, true, false, Option, none, some, List, [], ◌∷◌, Text, txt, drop,
  strcaseeq, ◌==◌, if◌then◌else◌,
}
use jumpbox.Http.{Client, Event, Status, djb_ok}
use jumpbox.Jansson.{Jansson, passes}
use jumpbox.Reply.{djb_error, djb_result}
use jumpbox.Prefs.Values.{Values, l_keys, no_values, prf_set_value}
use jumpbox.Prefs.Bridges.{prf_br_list}

-- The module's variables.
pub record Prefs (Json : Type 0) : Type 0 where
  pub l_values : Values
  pub l_current_preferences : Option Text
  pub l_bridge_access_list : Option Json

module _ (J : Jansson) where
  abbrev pub string_at : Option J.Json → ℕ → Values → Values
  string_at none i values = values
  string_at (some v) i values =
      if J.is_string v then prf_set_value i (some (J.string_value v)) values else values

  -- The loop over l_keys, from a position on.
  unfoldable pub parse_keys : J.Json → ℕ → List Text → Values → Values
  parse_keys root i [] values = values
  parse_keys root i (key ∷ keys) values =
      parse_keys root (suc i) keys (string_at (J.object_get root key) i values)

  abbrev parse_root : Option J.Json → Values → Values × Bool
  parse_root none values = (values, false)
  parse_root (some root) values =
      if J.is_object root then (parse_keys root 0 l_keys values, true) else (values, false)

  unfoldable pub prf_parse_preferences : Prefs J.Json → Prefs J.Json × Bool
  prf_parse_preferences p = elim p.l_current_preferences [
    | none ↦ (p, false)
    | some text ↦
        let (values, ok) = parse_root (J.loads text) p.l_values in
        (record p { l_values = values }, ok)
  ]

  -- With a body.
  abbrev set_body : ℕ → Text → Prefs J.Json → Prefs J.Json × List Event
  set_body hcl text p =
      let (q, ok) = prf_parse_preferences (record p { l_current_preferences = some text }) in
      (q, djb_result J hcl djb_ok (if ok then txt "Preferences OK" else txt "Preferences broken"))

  -- Without one, the client is left to read it, or refused if there is none to come.
  unfoldable pub prf_set : ℕ → Client → Prefs J.Json → Prefs J.Json × List Event
  prf_set hcl c p = elim c.readbody [
    | some text ↦ set_body hcl text p
    | none ↦ (
      p,
      if c.content_length == 0
          then djb_error hcl 400 (txt "Setting preferences requires a length")
          else [],
    )
  ]

  unfoldable pub prf_handle : ℕ → Client → Prefs J.Json → Prefs J.Json × List Event
  unfolding prf_set
  prf_handle hcl c p =
      let uri = drop 12 c.uri in
      if strcaseeq uri (txt "/set/")
      then prf_set hcl c p
      else (if strcaseeq uri (txt "/bridge/list/")
          then (p, prf_br_list J hcl p.l_bridge_access_list)
          else (p, djb_error hcl 404 (txt "No such DJB API request (Preferences)")))

  unfoldable pub prf_init : Prefs J.Json → Prefs J.Json
  prf_init p = record p { l_values = no_values }

  unfoldable pub prf_exit : Prefs J.Json → Prefs J.Json
  prf_exit p = record p { l_current_preferences = none }
