-- ===== src/Base/Text.antt =====
-- Texts as the C code reads them: the characters in front of the terminator.
use Prim.Native.Nat.{ℕ, ◌-◌}
use Prim.Native.Char.{code}
use Prim.Native.String.{String}
use mathlib.Core.Bool.{Bool, true, false, ◌&&◌}
use mathlib.Core.List.{List, [], ◌∷◌}
use mathlib.Core.Path.{◌≡◌, refl}
use native.Mathlib.Omega.{arith}
use carrels.Base.Compare.{◌==◌}
use carrels.Base.Lists.{take}

-- The bytes of an ASCII literal.
abbrev pub codes : String → List ℕ
codes String.[] = []
codes (String.◌∷◌ c s) = code c ∷ codes s

-- `strcmp(a, b) == 0`.
unfoldable pub same_text : List ℕ → List ℕ → Bool
same_text [] [] = true
same_text (a ∷ rest) (b ∷ others) = a == b && same_text rest others
same_text [] (b ∷ others) = false
same_text (a ∷ rest) [] = false

-- `strncmp(text, prefix, strlen(prefix)) == 0`.
unfoldable pub starts_with : List ℕ → List ℕ → Bool
starts_with [] text = true
starts_with (c ∷ cs) [] = false
starts_with (c ∷ cs) (d ∷ ds) = c == d && starts_with cs ds

-- A copy into a buffer of `size` bytes: what does not fit is cut off.
abbrev pub copy_string : ℕ → List ℕ → List ℕ
copy_string size text = take (size - 1) text

pub same_text_self : (a : List ℕ) → same_text a a ≡ true
unfolding same_text
same_text_self [] = refl
same_text_self (c ∷ cs) = ground (arith, same_text_self cs)

pub same_text→≡ : (a b : List ℕ) → same_text a b ≡ true → a ≡ b
unfolding same_text
same_text→≡ [] [] h = refl
same_text→≡ (a ∷ rest) (b ∷ others) h = ground (arith, same_text→≡ rest others)
same_text→≡ [] (b ∷ others) h = cc
same_text→≡ (a ∷ rest) [] h = cc
