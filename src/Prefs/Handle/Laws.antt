-- ===== src/Prefs/Handle/Laws.antt =====
-- What setting the preferences does.
use jumpbox.Base.{
  ℕ, zero, suc, ◌+◌, ◌≤◌, ◌<◌, ◌≡◌, refl, ◌∙◌, true, Option, none, some, List, [], ◌∷◌, Text, arith,
  length, get_elem?, ◌==◌, if◌then◌else◌,
}
use jumpbox.Jansson.{Jansson}
use jumpbox.Prefs.Updates.{at-set, length-set}
use jumpbox.Prefs.Values.{Values, at, l_keys, prf_max, prf_set_value}
use jumpbox.Prefs.Handle.{Prefs, parse_keys, string_at, prf_parse_preferences}

module _ (J : Jansson) where
  -- The value that a preference has after an object was read: its string there, or the old one.
  abbrev pub read : Option J.Json → Option Text → Option Text
  read none old = old
  read (some v) old = if J.is_string v then some (J.string_value v) else old

  string_at_lem :
      (o : Option J.Json) (i j : ℕ) (values : Values)
      → length values ≡ prf_max
      → i < prf_max
      → (length (string_at J o i values) ≡ prf_max)
        × (at (string_at J o i values) j ≡ (if i == j then read o (at values i) else at values j))
  unfolding prf_set_value
  string_at_lem none i j values n h = (n, ground arith)
  string_at_lem (some v) i j values n h = ground (
    arith,
    length-set values i (some (J.string_value v)),
    at-set values i j (some (J.string_value v)),
  )

  -- Places below those of the keys that are left are not touched.
  parse_keys-below :
      (root : J.Json) (i j : ℕ) (keys : List Text) (values : Values)
      → length values ≡ prf_max
      → i + length keys ≤ prf_max
      → j < i
      → at (parse_keys J root i keys values) j ≡ at values j
  unfolding parse_keys
  parse_keys-below root i j [] values n h k = refl
  parse_keys-below root i j (key ∷ keys) values n h k =
      let o = J.object_get root key in
      let (len, same) = string_at_lem o i j values n (omega arith) in
      parse_keys-below root (suc i) j keys (string_at J o i values) len (omega arith) (omega arith)
      ∙ ground arith

  parse_keys-at :
      (root : J.Json) (i j : ℕ) (keys : List Text) (values : Values) {key : Text}
      → length values ≡ prf_max
      → i + length keys ≤ prf_max
      → get_elem? keys j ≡ some key
      → at (parse_keys J root i keys values) (i + j)
        ≡ read (J.object_get root key) (at values (i + j))
  unfolding parse_keys
  parse_keys-at root i j [] values n h k = cc
  parse_keys-at root i zero (k ∷ keys) values {key} n h e =
      let o = J.object_get root k in
      let (len, same) = string_at_lem o i i values n (omega arith) in
      let here : i + 0 ≡ i = omega arith in
      rw here (
        parse_keys-below root (suc i) i keys (string_at J o i values) len (omega arith)
          (omega arith)
        ∙ ground arith)
  parse_keys-at root i (suc j) (k ∷ keys) values n h e =
      let o = J.object_get root k in
      let (len, same) = string_at_lem o i (suc i + j) values n (omega arith) in
      let there : i + suc j ≡ suc i + j = omega arith in
      rw there (
        parse_keys-at root (suc i) j keys (string_at J o i values) len (omega arith) e
        ∙ ground arith)

  -- Preferences whose text is a JSON object are taken over: each of the nine values becomes the string
  -- that the object has under its key, and stays as it was where the object has none. Nothing else
  -- of the preferences changes.
  pub prf_parse_preferences-at :
      (p : Prefs J.Json) (j : ℕ) {text key : Text} {root : J.Json}
      → length p.l_values ≡ prf_max
      → p.l_current_preferences ≡ some text
      → J.loads text ≡ some root
      → J.is_object root ≡ true
      → get_elem? l_keys j ≡ some key
      → let (q, ok) = prf_parse_preferences J p in
        (ok ≡ true)
        × (at q.l_values j ≡ read (J.object_get root key) (at p.l_values j))
        × (q ≡ record p { l_values = q.l_values })
  unfolding prf_parse_preferences
  prf_parse_preferences-at p j {key} {root} n current loaded object at_key =
      let none_left : 0 + length l_keys ≤ prf_max = unfold l_keys in omega arith in
      let zero_add : 0 + j ≡ j = omega arith in
      let kept = rw zero_add at (parse_keys-at root 0 j l_keys p.l_values n none_left at_key) in
      ground arith
