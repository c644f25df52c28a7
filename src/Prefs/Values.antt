-- ===== src/Prefs/Values.antt =====
-- l_keys, l_values and l_defaults, and the functions that read and write a value.
use jumpbox.Base.{
  ℕ, Option, none, some, List, [], ◌∷◌, Text, txt, ltb, if◌then◌else◌, set, replicate,
}

-- enum prf_v
abbrev pub prf_cc : ℕ
prf_cc = 0

abbrev pub prf_exe : ℕ
prf_exe = 1

abbrev pub prf_ll : ℕ
prf_ll = 2

abbrev pub prf_sm : ℕ
prf_sm = 3

abbrev pub prf_tp : ℕ
prf_tp = 4

abbrev pub prf_shs : ℕ
prf_shs = 5

abbrev pub prf_pa : ℕ
prf_pa = 6

abbrev pub prf_ja : ℕ
prf_ja = 7

abbrev pub prf_sa : ℕ
prf_sa = 8

abbrev pub prf_max : ℕ
prf_max = 9

unfoldable pub l_keys : List Text
l_keys =
    txt "stegotorus_circuit_count"
    ∷ txt "stegotorus_executable"
    ∷ txt "stegotorus_log_level"
    ∷ txt "stegotorus_steg_module"
    ∷ txt "stegotorus_trace_packets"
    ∷ txt "shared_secret"
    ∷ txt "proxy_address"
    ∷ txt "djb_address"
    ∷ txt "server_address"
    ∷ []

unfoldable pub l_defaults : List (Option Text)
l_defaults =
    some (txt "1")
    ∷ some (txt "/usr/sbin/stegotorus")
    ∷ some (txt "warn")
    ∷ some (txt "json")
    ∷ some (txt "false")
    ∷ none
    ∷ some (txt "127.0.0.1:1080")
    ∷ some (txt "127.0.0.1:6543")
    ∷ some (txt "127.0.0.1:8080")
    ∷ []

-- l_values: `none` is NULL. The list has prf_max places.
abbrev pub Values : Type 0
Values = List (Option Text)

-- NULL where there is no such place.
abbrev pub at : Values → ℕ → Option Text
at [] i = none
at (v ∷ vs) ℕ.zero = v
at (v ∷ vs) (ℕ.suc i) = at vs i

abbrev pub or_default : Option Text → Option Text → Option Text
or_default none d = d
or_default (some v) d = some v

unfoldable pub prf_get_value : ℕ → Values → Option Text
unfolding l_defaults
prf_get_value i values = if ltb i prf_max then or_default (at values i) (at l_defaults i) else none

-- strdup is taken to succeed.
unfoldable pub prf_set_value : ℕ → Option Text → Values → Values
prf_set_value i val values = if ltb i prf_max then set values i val else values

-- The values that prf_init leaves.
abbrev pub no_values : Values
no_values = replicate prf_max none
