-- ===== src/Base/Texts.antt =====
-- Texts as lists of code points.
use Prim.Native.Nat.{ℕ}
use mathlib.Core.Path.{◌≡◌, refl}
use mathlib.Core.Bool.{Bool, true, false, ◌&&◌, ◌||◌}
use mathlib.Core.List.{List, [], ◌∷◌}
use Prim.Native.Char.{code}
use Prim.Native.String.{String}
use native.Mathlib.Omega.{arith}
use qora.Base.Tests.{◌==◌}

-- `a == b` on strings
abbrev pub same_text : List ℕ → List ℕ → Bool
same_text [] [] = true
same_text [] (d ∷ ds) = false
same_text (c ∷ cs) [] = false
same_text (c ∷ cs) (d ∷ ds) = c == d && same_text cs ds

abbrev pub starts_with : List ℕ → List ℕ → Bool
starts_with text [] = true
starts_with [] (p ∷ prefix) = false
starts_with (c ∷ text) (p ∷ prefix) = c == p && starts_with text prefix

abbrev pub in_texts : List ℕ → List (List ℕ) → Bool
in_texts text [] = false
in_texts text (t ∷ texts) = same_text t text || in_texts text texts

pub same_text→eq : (a b : List ℕ) → same_text a b ≡ true → a ≡ b
same_text→eq [] [] h = refl
same_text→eq [] (d ∷ ds) h = cc
same_text→eq (c ∷ cs) [] h = cc
same_text→eq (c ∷ cs) (d ∷ ds) h = ground (arith, same_text→eq cs ds)

pub same_text_refl : (a : List ℕ) → same_text a a ≡ true
same_text_refl [] = refl
same_text_refl (c ∷ cs) = ground (arith, same_text_refl cs)

-- the code points of a text
abbrev pub codes : String → List ℕ
codes String.[] = []
codes (String.◌∷◌ c s) = code c ∷ codes s
