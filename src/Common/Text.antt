-- ===== src/Common/Text.antt =====
-- Text as the list of its code points or bytes.
use Prim.Native.Nat.{ℕ}
use Prim.Native.String.{String}
use Prim.Native.Char.{code}
use mathlib.Core.Path.{◌≡◌, refl}
use mathlib.Core.Bool.{Bool, true, false, ◌&&◌}
use mathlib.Core.List.{List, [], ◌∷◌}
use native.Mathlib.Omega.{arith}
use package.cliproxy_portal.Common.Tests.{◌==◌}

-- The code points of a literal of the source.
abbrev pub codes : String → List ℕ
codes String.[] = []
codes (String.◌∷◌ letter text) = code letter ∷ codes text

abbrev pub same : List ℕ → List ℕ → Bool
same [] [] = true
same [] (y ∷ ys) = false
same (x ∷ xs) [] = false
same (x ∷ xs) (y ∷ ys) = (x == y) && same xs ys

pub same-eq : (a b : List ℕ) → same a b ≡ true → a ≡ b
same-eq [] [] h = refl
same-eq [] (y ∷ ys) h = cc
same-eq (x ∷ xs) [] h = cc
same-eq (x ∷ xs) (y ∷ ys) h =
    let head : x ≡ y = ground (arith, h) in
    let tail : xs ≡ ys = same-eq xs ys (ground (arith, h)) in
    rw (head, tail) refl

pub same-refl : (a : List ℕ) → same a a ≡ true
same-refl [] = refl
same-refl (x ∷ xs) = ground (arith, same-refl xs)
