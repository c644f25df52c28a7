-- ===== src/Prefs/Bridges/Shape.antt =====
-- Which bridge lists are accepted, and what becomes of them.
use jumpbox.Prefs.Updates.{at-set, length-set}
use jumpbox.Prefs.Values.{Values, at, prf_sm, prf_sa, prf_max, prf_set_value}
use jumpbox.Base.{
  set, length, if◌then◌else◌, Text, ℕ, ◌≡◌, refl, Bool, true, false, ◌&&◌, Option, none, some, List,
  [], ◌∷◌, txt, arith, count_if, ◌==◌, Option-cases, inl, inr,
}
use jumpbox.Jansson.{Jansson, object_at, passes}
use jumpbox.Reply.{djb_result, ends}
use jumpbox.Prefs.Bridges.{
  Listed, items, bad, append_new, bridge_item, br_loop, prf_br_list, prf_parse_bridge_details,
}

module _ (J : Jansson) where
  -- A bridge says how it is camouflaged: a method and a scheme, both strings.
  abbrev camouflage_of : J.Json → Option J.Json
  camouflage_of bridge = J.object_get bridge (txt "Camouflage")

  abbrev pub is_bridge : J.Json → Bool
  is_bridge bridge =
      J.is_object bridge
      && passes J J.is_object (camouflage_of bridge)
      && passes J J.is_string (object_at J (camouflage_of bridge) (txt "method"))
      && passes J J.is_string (object_at J (camouflage_of bridge) (txt "scheme"))

  abbrev pub all_bridges : List J.Json → Bool
  all_bridges [] = true
  all_bridges (b ∷ bs) = is_bridge b && all_bridges bs

  abbrev pub is_items : Listed J.Json → Bool
  is_items (items arr) = true
  is_items (bad msg) = false

  -- The loop of prf_br_list goes through without an error exactly if every entry of the list is an
  -- object with an object "Camouflage" that has a string "method" and a string "scheme".
  pub is_items-br_loop : (l arr : List J.Json) → is_items (br_loop J l arr) ≡ all_bridges l
  unfolding br_loop
  is_items-br_loop [] arr = refl
  is_items-br_loop (b ∷ bs) arr = elim (Option-cases (camouflage_of b)) [
    | inl no_camouflage ↦ ground arith
    | inr (c, e) ↦ elim (Option-cases (J.object_get c (txt "method"))) [
      | inl no_method ↦ ground arith
      | inr (m, f) ↦ elim (Option-cases (J.object_get c (txt "scheme"))) [
        | inl no_scheme ↦ ground arith
        | inr (s, g) ↦ ground (arith, is_items-br_loop bs (append_new J arr (bridge_item J m s)))
      ]
    ]
  ]

  -- Whatever the bridge list is, and on every branch, prf_br_list ends the request of its client
  -- exactly once.
  pub prf_br_list_once :
      (hcl : ℕ) (l : Option J.Json) → count_if (ends hcl) (prf_br_list J hcl l) ≡ 1
  unfolding prf_br_list djb_result
  prf_br_list_once hcl none = ground arith
  prf_br_list_once hcl (some l) = ground arith

  -- An object "Camouflage" with a string "method" and an object "Contact" with a string
  -- "IP_address".
  abbrev pub is_details : J.Json → Bool
  is_details b =
      J.is_object b
      && passes J J.is_object (camouflage_of b)
      && passes J J.is_string (object_at J (camouflage_of b) (txt "method"))
      && passes J J.is_object (J.object_get b (txt "Contact"))
      && passes J J.is_string (object_at J (J.object_get b (txt "Contact")) (txt "IP_address"))

  abbrev pub text_of : Option J.Json → Option Text
  text_of none = none
  text_of (some v) = some (J.string_value v)

  -- What a preference becomes with these details: the steganography module is the method, and the
  -- server's address the address of the contact.
  abbrev pub with_details : J.Json → ℕ → Option Text → Option Text
  with_details b i old =
      if i == prf_sm
      then text_of (object_at J (camouflage_of b) (txt "method"))
      else (if i == prf_sa
          then text_of (object_at J (J.object_get b (txt "Contact")) (txt "IP_address"))
          else old)

  set_both :
      (values : Values) (i : ℕ) (v u : Option Text)
      → length values ≡ prf_max
      → at (prf_set_value prf_sa u (prf_set_value prf_sm v values)) i
        ≡ (if i == prf_sm then v else (if i == prf_sa then u else at values i))
  unfolding prf_set_value
  set_both values i v u n = ground (
    arith,
    length-set values prf_sm v,
    at-set values prf_sm i v,
    at-set (set values prf_sm v) prf_sa i u,
  )

  -- Bridge details are taken exactly if they are an object with an object "Camouflage" that has a
  -- string "method" and an object "Contact" that has a string "IP_address". Then the steganography
  -- module becomes the method and the server's address the contact's, and the other preferences
  -- are as they were; details that are not taken change none.
  pub prf_parse_bridge_details-at :
      (b : J.Json) (values : Values) (i : ℕ)
      → length values ≡ prf_max
      → let (after, ok) = prf_parse_bridge_details J (some b) values in
        (ok ≡ is_details b)
        × (at after i ≡ (if is_details b then with_details b i (at values i) else at values i))
  unfolding prf_parse_bridge_details
  prf_parse_bridge_details-at b values i n = elim (Option-cases (camouflage_of b)) [
    | inl no_camouflage ↦ ground arith
    | inr (c, e) ↦ elim (Option-cases (J.object_get c (txt "method"))) [
      | inl no_method ↦ ground arith
      | inr (m, f) ↦ elim (Option-cases (J.object_get b (txt "Contact"))) [
        | inl no_contact ↦ ground arith
        | inr (k, g) ↦ elim (Option-cases (J.object_get k (txt "IP_address"))) [
          | inl no_address ↦ ground arith
          | inr (ip, h) ↦
              ground
                (arith, set_both values i (some (J.string_value m)) (some (J.string_value ip)) n)
        ]
      ]
    ]
  ]
