-- ===== src/Tests/Prefs.antt =====
-- The theorems on the preferences at preferences with a few values, and at bridge lists.
use jumpbox.Base.{
  if◌then◌else◌, ℕ, ◌^◌, ◌≡◌, ◌<◌, refl, true, Option, none, some, List, [], ◌∷◌, Text, txt, arith,
  skip_space, ◌-◌, length, count_if,
}
use jumpbox.Atoi.{atoi, digits_value}
use jumpbox.Jansson.{Jansson}
use jumpbox.Reply.{ends}
use jumpbox.Prefs.Values.{prf_sa, Values, at, no_values, prf_cc, prf_get_value, l_keys, l_defaults}
use jumpbox.Prefs.Argv.{World, built, prf_get_argv}
use jumpbox.Prefs.Argv.Slots.{circuits}
use jumpbox.Prefs.Argv.Bounds.{prf_get_argv-overflow}
use jumpbox.Prefs.Bridges.{prf_parse_bridge_details, prf_br_list, br_loop}
use jumpbox.Prefs.Bridges.Shape.{
  is_items, all_bridges, is_details, with_details, is_items-br_loop, prf_br_list_once,
  prf_parse_bridge_details-at,
}
use jumpbox.Prefs.Handle.{Prefs, prf_parse_preferences}
use jumpbox.Prefs.Handle.Laws.{read, prf_parse_preferences-at}
use jumpbox.Tests.Fixtures.{Json, str, empty, nil, member, item, jansson}

abbrev pub world : World
world = record {
  forced_shared_secret = some (txt "secret");
  forced_jumpbox_address = none;
  forced_steg_method = none;
  calloc_ok = true;
  snprintfok = λ len size. true;
}

-- The preferences ask for minus one circuits.
abbrev minus_one : Values
minus_one = some (txt "-1") ∷ no_values

most_circuits : circuits world minus_one ≡ 2 ^ 32 - 1
unfolding prf_get_value l_defaults atoi skip_space txt digits_value
most_circuits = refl

prf_get_argv-overflow_example :
    (argc : ℕ) × (args : List (Option Text)) × (prf_get_argv world minus_one ≡ built argc args)
    × (argc < length args)
prf_get_argv-overflow_example =
    prf_get_argv-overflow world minus_one refl refl (rw most_circuits (omega arith))

abbrev root : Json
root = member (txt "stegotorus_circuit_count") (str (txt "4")) empty

abbrev J : Jansson
J = jansson (λ text. some root)

abbrev loaded : Prefs Json
loaded = record {
  l_values = no_values;
  l_current_preferences = some (txt "{…}");
  l_bridge_access_list = none;
}

prf_parse_preferences-at_example :
    let (q, ok) = prf_parse_preferences J loaded in
    (ok ≡ true)
    × (at q.l_values prf_cc ≡ read J (J.object_get root (txt "stegotorus_circuit_count")) none)
    × (q ≡ record loaded { l_values = q.l_values })
unfolding l_keys
prf_parse_preferences-at_example =
    prf_parse_preferences-at J loaded prf_cc {key = txt "stegotorus_circuit_count"} {root = root}
      refl refl refl refl refl

abbrev camouflage : Json
camouflage =
    member (txt "method") (str (txt "StegoTorus")) (member (txt "scheme") (str (txt "json")) empty)

abbrev bridge : Json
bridge = member (txt "Camouflage") camouflage empty

is_items-br_loop_example :
    is_items J (br_loop J (bridge ∷ empty ∷ []) []) ≡ all_bridges J (bridge ∷ empty ∷ [])
is_items-br_loop_example = is_items-br_loop J (bridge ∷ empty ∷ []) []

prf_br_list_once_example : count_if (ends 5) (prf_br_list J 5 (some (item bridge nil))) ≡ 1
prf_br_list_once_example = prf_br_list_once J 5 (some (item bridge nil))

abbrev details : Json
details = member (txt "Contact") (member (txt "IP_address") (str (txt "10.0.0.1")) empty) bridge

prf_parse_bridge_details-at_example :
    let (after, ok) = prf_parse_bridge_details J (some details) no_values in
    (ok ≡ is_details J details)
    × (at after prf_sa
        ≡ (if is_details J details then with_details J details prf_sa none else none))
prf_parse_bridge_details-at_example = prf_parse_bridge_details-at J details no_values prf_sa refl
