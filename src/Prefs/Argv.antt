-- ===== src/Prefs/Argv.antt =====
-- prf_get_argv: the preferences as the command line of StegoTorus.
pub mod Slots
pub mod Bounds
use jumpbox.Base.{
  ℕ, zero, suc, ◌+◌, ◌*◌, ◌%◌, ◌^◌, Bool, true, false, not, Option, none, some, List, [], ◌∷◌, ◌++◌,
  Text, txt, text_eq, ltb, if◌then◌else◌, length, take, is_empty,
}
use jumpbox.Atoi.{atoi}
use jumpbox.Prefs.Values.{
  Values, or_default, prf_get_value, prf_cc, prf_exe, prf_ll, prf_sm, prf_tp, prf_shs, prf_pa,
  prf_ja,
}

-- What the call takes from outside: three variables of the environment, calloc's success, and
-- libfutil's snprintfok, which says of a length and a size whether the text fitted.
pub record World : Type 0 where
  pub forced_shared_secret : Option Text
  pub forced_jumpbox_address : Option Text
  pub forced_steg_method : Option Text
  pub calloc_ok : Bool
  pub snprintfok : ℕ → ℕ → Bool

-- `built` has the count that is returned and the slots that were written, `failed` is -1, and
-- `fault` a read through NULL.
pub data Argv : Type 0 where
  built : ℕ → List (Option Text) → Argv
  failed fault : Argv

-- A value that the code reads without a test for NULL.
abbrev pub deref : Option Text → (Text → Argv) → Argv
deref none f = fault
deref (some v) f = f v

abbrev pub u32 : ℕ → ℕ
u32 n = n % 2 ^ 32

-- ss != NULL && strcmp(ss, "") != 0
abbrev pub is_given : Option Text → Bool
is_given none = false
is_given (some s) = not (is_empty s)

abbrev pub as_number : Bool → ℕ
as_number b = if b then 1 else 0

-- The count of the slots, in unsigned int.
abbrev pub argc_of : ℕ → Option Text → Bool → ℕ
argc_of circuits ss trace =
    u32 (u32 (7 + u32 (2 * circuits)) + as_number (is_given ss) + as_number trace)

abbrev pub secret_slot : Option Text → List (Option Text)
secret_slot none = []
secret_slot (some s) = if is_empty s then [] else some (take 255 (txt "--shared-secret=" ++ s)) ∷ []

-- The loop over the circuits.
unfoldable pub circuit_slots : ℕ → Text → Text → List (Option Text)
circuit_slots zero ja sm = []
circuit_slots (suc n) ja sm = some ja ∷ some sm ∷ circuit_slots n ja sm

-- ja and sm are only read if there is a circuit.
abbrev pub with_circuits : ℕ → Option Text → Option Text → (List (Option Text) → Argv) → Argv
with_circuits zero ja sm f = f []
with_circuits (suc n) ja sm f = deref ja λ j. deref sm λ m. f (circuit_slots (suc n) j m)

-- The slots as they are written; strdup is taken to succeed.
unfoldable pub slots :
    Text → Text → Bool → Option Text → Text → List (Option Text) → List (Option Text)
slots exe level trace ss pa circuits =
    some exe
      ∷ some level
      ∷ some (txt "chop")
      ∷ some (txt "socks")
      ∷ some (txt "--persist-mode")
      ∷ (if trace then some (txt "--trace-packets") ∷ [] else [])
    ++ (secret_slot ss ++ (some pa ∷ (circuits ++ none ∷ [])))

-- From calloc on.
unfoldable pub fill : World → Values → Bool → ℕ → Option Text → Option Text → Option Text → Argv
unfolding slots circuit_slots
fill w values trace circuits ss ja sm =
    if not w.calloc_ok
    then failed
    else deref (prf_get_value prf_exe values) λ exe. deref (prf_get_value prf_ll values) λ ll.
      let level = txt "--log-min-severity=" ++ ll in
      if not (w.snprintfok (length level) 256)
      then failed
      else deref (prf_get_value prf_pa values) λ pa.
        with_circuits circuits ja sm λ circuit_args.
          built (argc_of circuits ss trace) (slots exe level trace ss pa circuit_args)

unfoldable pub prf_get_argv : World → Values → Argv
unfolding fill
prf_get_argv w values = deref (prf_get_value prf_tp values) λ tp.
    deref (prf_get_value prf_cc values) λ cc_text.
      fill w values (text_eq tp (txt "true")) (atoi cc_text)
        (or_default w.forced_shared_secret (prf_get_value prf_shs values))
        (or_default w.forced_jumpbox_address (prf_get_value prf_ja values))
        (or_default w.forced_steg_method (prf_get_value prf_sm values))
