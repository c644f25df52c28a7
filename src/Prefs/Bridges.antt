-- ===== src/Prefs/Bridges.antt =====
-- The bridge access list: prf_set_bridge_access_list, prf_br_list and prf_parse_bridge_details.
pub mod Shape
use jumpbox.Base.{
  ℕ, Bool, true, false, Option, none, some, List, [], ◌∷◌, ◌++◌, Text, txt, if◌then◌else◌,
}
use jumpbox.Http.{Event, Status, djb_err, djb_ok}
use jumpbox.Jansson.{Jansson, object_at}
use jumpbox.Reply.{djb_result}
use jumpbox.Prefs.Values.{Values, prf_sm, prf_sa, prf_set_value}

module _ (J : Jansson) where
  -- A step that wants a value which passes a test, and otherwise leaves with `bad`.
  abbrev pub require {ℓ} : {A : Type ℓ} → (J.Json → Bool) → Option J.Json → A → (J.Json → A) → A
  require test none bad f = bad
  require test (some j) bad f = if test j then f j else bad

  -- l_bridge_access_list becomes what is loaded, NULL if that fails.
  unfoldable pub prf_set_bridge_access_list : Text → Option J.Json × Bool
  prf_set_bridge_access_list br = elim (J.loads br) [
    | none ↦ (none, false)
    | some j ↦ (some j, true)
  ]

  -- The values, and whether the details had the right shape.
  unfoldable pub prf_parse_bridge_details : Option J.Json → Values → Values × Bool
  prf_parse_bridge_details bridge values =
      require J.is_object bridge (values, false)
        λ b.
          require J.is_object (J.object_get b (txt "Camouflage")) (values, false)
            λ camouflage.
              require J.is_string (J.object_get camouflage (txt "method")) (values, false)
                λ method.
                  require J.is_object (J.object_get b (txt "Contact")) (values, false)
                    λ contact.
                      require J.is_string (J.object_get contact (txt "IP_address")) (values, false)
                        λ ip_address. (
                          prf_set_value prf_sa (some (J.string_value ip_address))
                              (prf_set_value prf_sm (some (J.string_value method)) values),
                          true,
                        )

-- What the loop of prf_br_list comes to: the array, or the message of the first bad bridge.
pub data Listed (Json : Type 0) : Type 0 where
  items : List Json → Listed Json
  bad : Text → Listed Json

module _ (J : Jansson) where
  -- json_pack reads the string objects themselves, and json_array_append_new ignores NULL.
  abbrev pub append_new : List J.Json → Option J.Json → List J.Json
  append_new arr none = arr
  append_new arr (some j) = arr ++ j ∷ []

  abbrev pub bridge_item : J.Json → J.Json → Option J.Json
  bridge_item method scheme =
      J.pack_strings (txt "method") (J.raw method) (txt "scheme") (J.raw scheme)

  unfoldable pub br_loop : List J.Json → List J.Json → Listed J.Json
  br_loop [] arr = items arr
  br_loop (bridge ∷ rest) arr =
      let next =
        λ (method scheme : J.Json). br_loop rest (append_new arr (bridge_item method scheme)) in
      require J J.is_object (some bridge) (bad (txt "Bridge missing in list")) λ b.
        require J J.is_object (J.object_get b (txt "Camouflage"))
          (bad (txt "BR Camouflage not found"))
          λ camouflage.
            require J J.is_string (J.object_get camouflage (txt "method"))
              (bad (txt "BR Camouflage method not found"))
              λ method.
                require J J.is_string (J.object_get camouflage (txt "scheme"))
                  (bad (txt "BR Camouflage scheme not found")) λ scheme. next method scheme

  abbrev pub dump_list : ℕ → Option J.Json → List Event
  dump_list hcl none = djb_result J hcl djb_err (txt "Could not pack JSON")
  dump_list hcl (some obj) = elim (J.dumps_ascii obj) [
    | none ↦ djb_result J hcl djb_err (txt "Could not dump JSON")
    | some j ↦ djb_result J hcl djb_ok j
  ]

  abbrev pub reply_list : ℕ → Listed J.Json → List Event
  reply_list hcl (bad msg) = djb_result J hcl djb_err msg
  reply_list hcl (items arr) = dump_list hcl (J.pack_array (txt "bridges") arr)

  unfoldable pub prf_br_list : ℕ → Option J.Json → List Event
  unfolding br_loop
  prf_br_list hcl none = djb_result J hcl djb_err (txt "No Bridge List set yet, perform ACS first")
  prf_br_list hcl (some l) =
      require J J.is_object (some l)
        (djb_result J hcl djb_err (txt "Bridge List is not a valid JSON Object"))
        λ root.
          require J J.is_array (J.object_get root (txt "BR_Access_List"))
            (djb_result J hcl djb_err (txt "Bridge Access List array missing"))
            λ list.
              if J.array_ok
              then reply_list hcl (br_loop (J.array_items list) [])
              else djb_result J hcl djb_err (txt "Could not create a JSON array")
