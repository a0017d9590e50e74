-- ===== src/Threads/Cond/Count.antt =====
-- How often a value occurs in a list.
use linux_api_and_socket_pro.Common.{
  ℕ, ◌+◌, ◌≡◌, refl, List, [], ◌∷◌, ◌++◌, arith, ◌==◌, if◌then◌else◌,
}

unfoldable pub count : ℕ → List ℕ → ℕ
count v [] = 0
count v (x ∷ xs) = (if x == v then 1 else 0) + count v xs

pub count-append : (v : ℕ) (xs ys : List ℕ) → count v (xs ++ ys) ≡ count v xs + count v ys
unfolding count
count-append v [] ys = omega arith
count-append v (x ∷ xs) ys = omega (arith, count-append v xs ys)

pub count-cons : (v x : ℕ) (xs : List ℕ) → count v (x ∷ xs) ≡ (if x == v then 1 else 0) + count v xs
unfolding count
count-cons v x xs = refl
