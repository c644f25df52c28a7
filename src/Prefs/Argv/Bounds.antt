-- ===== src/Prefs/Argv/Bounds.antt =====
-- The slots that prf_get_argv counts and allocates, against those that it writes.
use jumpbox.Base.{ℕ, ◌+◌, ◌^◌, ◌≤◌, ◌<◌, ◌≡◌, ◌∙◌, Bool, true, Option, List, Text, arith, length}
use jumpbox.Prefs.Values.{Values}
use jumpbox.Prefs.Argv.{World, built, argc_of, prf_get_argv}
use jumpbox.Prefs.Argv.Slots.{
  circuits, secret, traced, log_level, written, prf_get_argv_lem, length-written,
}

argc_of-lt : (n : ℕ) (ss : Option Text) (trace : Bool) → argc_of n ss trace < 2 ^ 32
argc_of-lt n ss trace = omega arith

module _ (w : World) (values : Values) where
  succeeds :
      w.calloc_ok ≡ true
      → w.snprintfok (length (log_level w values)) 256 ≡ true
      → prf_get_argv w values
        ≡ built (argc_of (circuits w values) (secret w values) (traced w values)) (written w values)
  succeeds a b = prf_get_argv_lem w values ∙ rw (a, b)

  -- If calloc succeeds, the log level fits its buffer, and the number of circuits is 2 ^ 31 - 3 or
  -- more, 2 * circuits wraps in the unsigned int: the count that is allocated and returned is below
  -- the number of slots that are written.
  pub prf_get_argv-overflow :
      w.calloc_ok ≡ true
      → w.snprintfok (length (log_level w values)) 256 ≡ true
      → 2 ^ 31 ≤ circuits w values + 3
      → (argc : ℕ) × (args : List (Option Text)) × (prf_get_argv w values ≡ built argc args)
        × (argc < length args)
  prf_get_argv-overflow a b big = (
    argc_of (circuits w values) (secret w values) (traced w values),
    written w values,
    succeeds a b,
    omega (
      arith,
      argc_of-lt (circuits w values) (secret w values) (traced w values),
      length-written w values,
    ),
  )
