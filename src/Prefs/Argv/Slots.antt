-- ===== src/Prefs/Argv/Slots.antt =====
-- What prf_get_argv allocates against what it writes.
use jumpbox.Base.{
  ℕ, zero, suc, ◌+◌, ◌*◌, ◌<◌, ◌≡◌, ◌≢◌, refl, ap, ◌∙◌, Bool, true, false, ◌&&◌, Option, none, some,
  List, [], ◌∷◌, ◌++◌, Text, txt, text_eq, arith, length, length-append, count_if, count_if-append,
  if◌then◌else◌,
}
use jumpbox.Atoi.{atoi}
use jumpbox.Prefs.Values.{
  Values, or_default, prf_get_value, prf_cc, prf_exe, prf_ll, prf_sm, prf_tp, prf_shs, prf_pa,
  prf_ja,
}
use jumpbox.Prefs.Argv.{
  World, Argv, built, failed, is_given, as_number, argc_of, secret_slot, circuit_slots,
  with_circuits, slots, fill, prf_get_argv,
}

abbrev text_or_empty : Option Text → Text
text_or_empty none = []
text_or_empty (some v) = v

-- The value of a preference.
abbrev pub value : ℕ → Values → Text
value i values = text_or_empty (prf_get_value i values)

-- Only the shared secret has no default.
abbrev pub HasDefault : ℕ → Type 0
HasDefault i = (i < 9) × (i ≢ prf_shs)

pub prf_get_value-some :
    (i : ℕ) (values : Values) → HasDefault i → prf_get_value i values ≡ some (value i values)
unfolding prf_get_value
prf_get_value-some zero values h = ground arith
prf_get_value-some (suc zero) values h = ground arith
prf_get_value-some (suc (suc zero)) values h = ground arith
prf_get_value-some (suc (suc (suc zero))) values h = ground arith
prf_get_value-some (suc (suc (suc (suc zero)))) values h = ground arith
prf_get_value-some (suc (suc (suc (suc (suc zero))))) values h = absurd (h.1 refl)
prf_get_value-some (suc (suc (suc (suc (suc (suc zero)))))) values h = ground arith
prf_get_value-some (suc (suc (suc (suc (suc (suc (suc zero))))))) values h = ground arith
prf_get_value-some (suc (suc (suc (suc (suc (suc (suc (suc zero)))))))) values h = ground arith
prf_get_value-some (suc (suc (suc (suc (suc (suc (suc (suc (suc i))))))))) values h =
    absurd (omega arith)

abbrev pub is_null : Option Text → Bool
is_null none = true
is_null (some v) = false

length-circuit_slots : (n : ℕ) (ja sm : Text) → length (circuit_slots n ja sm) ≡ 2 * n
unfolding circuit_slots
length-circuit_slots zero ja sm = refl
length-circuit_slots (suc n) ja sm = omega (arith, length-circuit_slots n ja sm)

nulls-circuit_slots : (n : ℕ) (ja sm : Text) → count_if is_null (circuit_slots n ja sm) ≡ 0
unfolding circuit_slots
nulls-circuit_slots zero ja sm = refl
nulls-circuit_slots (suc n) ja sm = omega (arith, nulls-circuit_slots n ja sm)

length-slots :
    (exe level pa : Text) (trace : Bool) (ss : Option Text) (cs : List (Option Text))
    → length (slots exe level trace ss pa cs)
      ≡ 7 + length cs + as_number (is_given ss) + as_number trace
unfolding slots
length-slots exe level pa trace none cs = ground (arith, length-append cs (none ∷ []))
length-slots exe level pa trace (some s) cs = ground (arith, length-append cs (none ∷ []))

nulls-slots :
    (exe level pa : Text) (trace : Bool) (ss : Option Text) (cs : List (Option Text))
    → count_if is_null (slots exe level trace ss pa cs) ≡ 1 + count_if is_null cs
unfolding slots
nulls-slots exe level pa trace none cs = ground (arith, count_if-append is_null cs (none ∷ []))
nulls-slots exe level pa trace (some s) cs = ground (arith, count_if-append is_null cs (none ∷ []))

with_circuits-some :
    (n : ℕ) (j m : Text) (f : List (Option Text) → Argv)
    → with_circuits n (some j) (some m) f ≡ f (circuit_slots n j m)
unfolding circuit_slots
with_circuits-some zero j m f = refl
with_circuits-some (suc n) j m f = refl

-- The forced value of the environment, or the preference.
abbrev chosen : Option Text → ℕ → Values → Text
chosen none i values = value i values
chosen (some v) i values = v

or_default-chosen :
    (forced : Option Text) (i : ℕ) (values : Values)
    → HasDefault i
    → or_default forced (prf_get_value i values) ≡ some (chosen forced i values)
or_default-chosen none i values h = prf_get_value-some i values h
or_default-chosen (some v) i values h = refl

abbrev pub last : List (Option Text) → Option (Option Text)
last [] = none
last (x ∷ []) = some x
last (x ∷ y ∷ ys) = last (y ∷ ys)

last-cons :
    (x y : Option Text) (ys : List (Option Text)) → last ys ≡ some y → last (x ∷ ys) ≡ some y
last-cons x y [] h = cc
last-cons x y (z ∷ ys) h = h

last-append :
    (y : Option Text) (xs ys : List (Option Text)) → last ys ≡ some y → last (xs ++ ys) ≡ some y
last-append y [] ys h = h
last-append y (x ∷ xs) ys h = last-cons x y (xs ++ ys) (last-append y xs ys h)

last-slots :
    (exe level pa : Text) (trace : Bool) (ss : Option Text) (cs : List (Option Text))
    → last (slots exe level trace ss pa cs) ≡ some none
unfolding slots
last-slots exe level pa trace ss cs =
    let flag : List (Option Text) = if trace then some (txt "--trace-packets") ∷ [] else [] in
    let rest : List (Option Text) = some pa ∷ (cs ++ none ∷ []) in
    let end : last (flag ++ (secret_slot ss ++ rest)) ≡ some none =
      last-append none flag (secret_slot ss ++ rest) (
        last-append none (secret_slot ss) rest
          (last-append none (some pa ∷ cs) (none ∷ []) refl)) in
    last-append none
      (some exe
        ∷ some level
        ∷ some (txt "chop")
        ∷ some (txt "socks")
        ∷ some (txt "--persist-mode")
        ∷ [])
      (flag ++ (secret_slot ss ++ rest)) end

fill-some :
    (w : World) (values : Values) (trace : Bool) (n : ℕ) (ss : Option Text) (j m : Text)
    → let level = txt "--log-min-severity=" ++ value prf_ll values in
      fill w values trace n ss (some j) (some m) ≡ (
        if w.calloc_ok && w.snprintfok (length level) 256
        then built (argc_of n ss trace) (
            slots (value prf_exe values) level trace ss (value prf_pa values) (circuit_slots n j m))
        else failed)
unfolding fill
fill-some w values trace n ss j m =
    rw
      (
        prf_get_value-some prf_exe values (omega arith),
        prf_get_value-some prf_ll values (omega arith),
        prf_get_value-some prf_pa values (omega arith),
        with_circuits-some n j m,
      )
      (ground arith)

module _ (w : World) (values : Values) where
  abbrev pub circuits : ℕ
  circuits = atoi (value prf_cc values)

  abbrev pub secret : Option Text
  secret = or_default w.forced_shared_secret (prf_get_value prf_shs values)

  abbrev pub traced : Bool
  traced = text_eq (value prf_tp values) (txt "true")

  abbrev pub log_level : Text
  log_level = txt "--log-min-severity=" ++ value prf_ll values

  -- The slots that prf_get_argv writes.
  pub written : List (Option Text)
  written = slots (value prf_exe values) log_level traced secret (value prf_pa values) (
      circuit_slots circuits (chosen w.forced_jumpbox_address prf_ja values)
        (chosen w.forced_steg_method prf_sm values))

  prf_get_argv-fill :
      prf_get_argv w values
      ≡ fill w values traced circuits secret
          (some (chosen w.forced_jumpbox_address prf_ja values))
          (some (chosen w.forced_steg_method prf_sm values))
  unfolding prf_get_argv
  prf_get_argv-fill = rw (
    prf_get_value-some prf_tp values (omega arith),
    prf_get_value-some prf_cc values (omega arith),
    or_default-chosen w.forced_jumpbox_address prf_ja values (omega arith),
    or_default-chosen w.forced_steg_method prf_sm values (omega arith),
  )

  pub prf_get_argv_lem : prf_get_argv w values ≡ (
      if w.calloc_ok && w.snprintfok (length log_level) 256
      then built (argc_of circuits secret traced) written
      else failed)
  unfolding written
  prf_get_argv_lem = prf_get_argv-fill ∙ fill-some w values traced circuits secret _ _

  pub length-written :
      length written ≡ 7 + 2 * circuits + as_number (is_given secret) + as_number traced
  unfolding written
  length-written = omega (
    arith,
    length-slots (value prf_exe values) log_level (value prf_pa values) traced secret (
        circuit_slots circuits (chosen w.forced_jumpbox_address prf_ja values)
          (chosen w.forced_steg_method prf_sm values)),
    length-circuit_slots circuits (chosen w.forced_jumpbox_address prf_ja values)
        (chosen w.forced_steg_method prf_sm values),
  )

  pub nulls-written : count_if is_null written ≡ 1
  unfolding written
  nulls-written =
      nulls-slots (value prf_exe values) log_level (value prf_pa values) traced secret _
      ∙ ap (◌+◌ 1) (nulls-circuit_slots circuits _ _)

  pub last-written : last written ≡ some none
  unfolding written
  last-written = last-slots (value prf_exe values) log_level (value prf_pa values) traced secret _
