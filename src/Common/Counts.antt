-- ===== src/Common/Counts.antt =====
-- Weighted counts over a list, and what a change of one entry does to them.
use linux_api_and_socket_pro.Common.Lists.{get_or, set, replicate}
use Prim.Native.Nat.{ℕ, zero, suc, ◌+◌, ◌*◌, ◌≤◌}
use mathlib.Core.Path.{◌≡◌, refl}
use mathlib.Core.Logic.{◌≢◌}
use mathlib.Core.List.{List, [], ◌∷◌, ◌++◌}
use native.Mathlib.Omega.{arith}

module _ {ℓ} {A : Type ℓ} (w : A → ℕ) where
  unfoldable pub total : List A → ℕ
  total [] = 0
  total (x ∷ xs) = w x + total xs

  pub total-nil : total [] ≡ 0
  unfolding total
  total-nil = refl

  pub total-cons : (x : A) (xs : List A) → total (x ∷ xs) ≡ w x + total xs
  unfolding total
  total-cons x xs = refl

  pub total-append : (xs ys : List A) → total (xs ++ ys) ≡ total xs + total ys
  unfolding total
  total-append [] ys = omega arith
  total-append (x ∷ xs) ys = omega (arith, total-append xs ys)

  pub total-replicate : (n : ℕ) (x : A) → total (replicate n x) ≡ n * w x
  unfolding total
  total-replicate zero x = omega arith
  total-replicate (suc n) x = grind (arith, total-replicate n x)

  -- A default of weight 0 covers an index out of range.
  pub total-set :
      (xs : List A) (i : ℕ) (v d : A)
      → get_or xs i d ≢ d
      → total (set xs i v) + w (get_or xs i d) ≡ total xs + w v
  unfolding total
  total-set [] i v d h = absurd (h refl)
  total-set (x ∷ xs) zero v d h = omega arith
  total-set (x ∷ xs) (suc i) v d h = omega (arith, total-set xs i v d h)

  pub total-ge : (xs : List A) (i : ℕ) (d : A) → get_or xs i d ≢ d → w (get_or xs i d) ≤ total xs
  unfolding total
  total-ge [] i d h = absurd (h refl)
  total-ge (x ∷ xs) zero d h = omega arith
  total-ge (x ∷ xs) (suc i) d h = omega (arith, total-ge xs i d h)
