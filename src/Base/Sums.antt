-- ===== src/Base/Sums.antt =====
-- Sums over the entries of a list.
use Prim.Native.Nat.{ℕ, ◌+◌}
use mathlib.Core.Path.{◌≡◌}
use mathlib.Core.List.{List, [], ◌∷◌, ◌++◌}
use native.Mathlib.Omega.{arith}

module _ {ℓ} {A : Type ℓ} where
  unfoldable pub total : (A → ℕ) → List A → ℕ
  total f [] = 0
  total f (x ∷ xs) = f x + total f xs

  pub total-append : (f : A → ℕ) (xs ys : List A) → total f (xs ++ ys) ≡ total f xs + total f ys
  unfolding total
  total-append f [] ys = omega arith
  total-append f (x ∷ xs) ys = omega (arith, total-append f xs ys)

  -- The sum around one entry.
  pub total-around :
      (f : A → ℕ) (xs : List A) (x : A) (ys : List A)
      → total f (xs ++ x ∷ ys) ≡ total f xs + (f x + total f ys)
  unfolding total
  total-around f xs x ys = total-append f xs (x ∷ ys)
