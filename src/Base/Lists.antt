-- ===== src/Base/Lists.antt =====
-- Arrays as lists with native indices, under the library's names.
use Prim.Native.Nat.{ℕ, zero, suc, ◌+◌}
use mathlib.Core.Path.{◌≡◌, refl, ap}
use mathlib.Core.List.{List, [], ◌∷◌, ◌++◌}
use mathlib.Core.Option.{Option, none, some}
use native.Mathlib.Omega.{arith}

module _ {ℓ} {A : Type ℓ} where
  abbrev pub length : List A → ℕ
  length [] = 0
  length (x ∷ xs) = suc (length xs)

  abbrev pub get_elem? : List A → ℕ → Option A
  get_elem? [] i = none
  get_elem? (x ∷ xs) zero = some x
  get_elem? (x ∷ xs) (suc i) = get_elem? xs i

  -- A write out of bounds changes nothing.
  abbrev pub set : List A → ℕ → A → List A
  set [] i v = []
  set (x ∷ xs) zero v = v ∷ xs
  set (x ∷ xs) (suc i) v = x ∷ set xs i v

  pub length-append : (xs ys : List A) → length (xs ++ ys) ≡ length xs + length ys
  length-append [] ys = omega arith
  length-append (x ∷ xs) ys = omega (arith, length-append xs ys)

  pub get_elem?-append :
      (xs : List A) (x : A) (ys : List A) → get_elem? (xs ++ (x ∷ ys)) (length xs) ≡ some x
  get_elem?-append [] x ys = refl
  get_elem?-append (y ∷ xs) x ys = get_elem?-append xs x ys

  pub set-append :
      (xs : List A) (x y : A) (ys : List A) → set (xs ++ (x ∷ ys)) (length xs) y ≡ xs ++ (y ∷ ys)
  set-append [] x y ys = refl
  set-append (z ∷ xs) x y ys = ap (◌∷◌ z) (set-append xs x y ys)
