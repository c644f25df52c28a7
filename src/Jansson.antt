-- ===== src/Jansson.antt =====
-- The JSON library, which djb links: the part of jansson.h that its code calls, as an interface.
use jumpbox.Base.{ℕ, Bool, false, Option, none, some, List, Text}

pub record Jansson : Type 1 where
  pub Json : Type 0
  pub loads : Text → Option Json  -- json_loads(text, 0, &error)
  pub dumps : Json → Option Text  -- json_dumps(json, 0)
  pub dumps_ascii : Json → Option Text  -- json_dumps(json, JSON_COMPACT | JSON_ENSURE_ASCII)
  pub is_object : Json → Bool
  pub is_array : Json → Bool
  pub is_string : Json → Bool
  pub is_number : Json → Bool
  pub is_true : Json → Bool
  pub object_get : Json → Text → Option Json
  pub string_value : Json → Text
  pub number_value : Json → ℕ  -- as the uint64_t that the code stores it in
  pub array_items : Json → List Json  -- json_array_get at each index below json_array_size
  pub array_ok : Bool  -- whether json_array() returns an array, not NULL
  pub pack_strings : Text → Text → Text → Text → Option Json  -- json_pack("{s:s, s:s}", …)
  pub pack_array : Text → List Json → Option Json  -- json_pack("{s:o}", key, array)
  pub raw : Json → Text  -- the bytes at a json_t's address, read as a C string

-- The tests and the lookup also take NULL.
module _ (J : Jansson) where
  abbrev pub object_at : Option J.Json → Text → Option J.Json
  object_at none key = none
  object_at (some j) key = J.object_get j key

  abbrev pub passes : (J.Json → Bool) → Option J.Json → Bool
  passes test none = false
  passes test (some j) = test j
