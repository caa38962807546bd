-- ===== src/Common/Points.antt =====
-- Texts as lists of numbers: code points, or bytes.
use Prim.Native.Char.{code}
use Prim.Native.Nat.{ℕ}
use Prim.Native.String.{String}
use mathlib.Core.Path.{◌≡◌, refl, ◌∙◌, ap}
use mathlib.Core.Bool.{Bool, true, false, ◌&&◌}
use mathlib.Core.List.{List, [], ◌∷◌}
use native.Mathlib.Omega.{arith}
use amplio.Common.Tests.{◌==◌}

abbrev pub Codes : Type 0
Codes = List ℕ

-- The code points of a text.
abbrev pub codes : String → Codes
codes String.[] = []
codes (String.◌∷◌ c s) = code c ∷ codes s

abbrev pub same_codes : Codes → Codes → Bool
same_codes [] [] = true
same_codes [] (y ∷ ys) = false
same_codes (x ∷ xs) [] = false
same_codes (x ∷ xs) (y ∷ ys) = x == y && same_codes xs ys

pub same_codes-eq : (xs ys : Codes) → same_codes xs ys ≡ true → xs ≡ ys
same_codes-eq [] [] h = refl
same_codes-eq [] (y ∷ ys) h = absurd (ground (arith, h))
same_codes-eq (x ∷ xs) [] h = absurd (ground (arith, h))
same_codes-eq (x ∷ xs) (y ∷ ys) h =
    let head : x ≡ y = ground (arith, h) in
    let tail : xs ≡ ys = same_codes-eq xs ys (ground (arith, h)) in
    ap (λ z. z ∷ xs) head ∙ ap (λ zs. y ∷ zs) tail

pub same_codes_of_self : (xs : Codes) → same_codes xs xs ≡ true
same_codes_of_self [] = refl
same_codes_of_self (x ∷ xs) = ground (arith, same_codes_of_self xs)
