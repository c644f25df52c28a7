-- ===== src/Base/CString.antt =====
-- C strings as lists of bytes, with no NUL in them, and the libc functions that djb calls on them.
use Prim.Native.Nat.{ℕ, ◌+◌}
use Prim.Native.Char.{code}
use Prim.Native.String.{String}
use mathlib.Core.Bool.{Bool, true, false, ◌&&◌}
use mathlib.Core.List.{List, [], ◌∷◌, map}
use jumpbox.Base.Tests.{leb, ◌==◌, if◌then◌else◌}
use jumpbox.Base.Lists.{take}

abbrev pub Text : Type 0
Text = List ℕ

-- The bytes of a literal. It stays shut, so that a literal is a plain constant in proofs.
unfoldable pub txt : String → Text
txt String.[] = []
txt (String.◌∷◌ c s) = code c ∷ txt s

-- strcmp(a, b) == 0
unfoldable pub text_eq : Text → Text → Bool
text_eq [] [] = true
text_eq [] (y ∷ ys) = false
text_eq (x ∷ xs) [] = false
text_eq (x ∷ xs) (y ∷ ys) = (x == y) && text_eq xs ys

-- tolower of the C locale
unfoldable pub tolower : ℕ → ℕ
tolower c = if leb b'A' c && leb c b'Z' then c + 32 else c

-- strcasecmp(a, b) == 0
unfoldable pub strcaseeq : Text → Text → Bool
unfolding text_eq tolower
strcaseeq a b = text_eq (map tolower a) (map tolower b)

-- strncasecmp(a, b, n) == 0
unfoldable pub strncaseeq : Text → Text → ℕ → Bool
unfolding text_eq tolower
strncaseeq a b n = text_eq (map tolower (take n a)) (map tolower (take n b))

-- strncmp(a, b, n) == 0
unfoldable pub strneq : Text → Text → ℕ → Bool
unfolding text_eq
strneq a b n = text_eq (take n a) (take n b)

-- strlen(s) == 0
unfoldable pub is_empty : Text → Bool
is_empty [] = true
is_empty (c ∷ s) = false

abbrev pub is_digit : ℕ → Bool
is_digit c = leb b'0' c && leb c b'9'

-- isspace of the C locale
unfoldable pub is_space : ℕ → Bool
is_space c = if c == 32 then true else leb 9 c && leb c 13

unfoldable pub skip_space : Text → Text
unfolding is_space
skip_space [] = []
skip_space (c ∷ s) = let rest = skip_space s in if is_space c then rest else c ∷ s
