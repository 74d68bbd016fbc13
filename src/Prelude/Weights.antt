-- ===== src/Prelude/Weights.antt =====
-- Sums over a list of threads, and what the change of one thread does to them.
use Prim.Native.Nat.{ℕ, zero, suc, ◌+◌, ◌≤◌, ◌<◌}
use mathlib.Core.Path.{◌≡◌}
use mathlib.Core.List.{List, [], ◌∷◌}
use mathlib.Core.Option.{some}
use native.Mathlib.Omega.{arith}
use custom_concurrent_tcp_pr.Prelude.Lists.{get_elem?}

module _ {ℓ} {A : Type ℓ} where
  -- A write out of bounds changes nothing.
  abbrev pub set : List A → ℕ → A → List A
  set [] i v = []
  set (x ∷ xs) zero v = v ∷ xs
  set (x ∷ xs) (suc i) v = x ∷ set xs i v

module _ {ℓ} {A : Type ℓ} (weight : A → ℕ) where
  unfoldable pub total : List A → ℕ
  total [] = 0
  total (x ∷ xs) = weight x + total xs

  pub total-set :
      (xs : List A) (i : ℕ) (x v : A)
      → get_elem? xs i ≡ some x
      → total (set xs i v) + weight x ≡ total xs + weight v
  unfolding total
  total-set [] i x v e = absurd (cc)
  total-set (y ∷ xs) zero x v e = let same : y ≡ x = cc in rw same (omega arith)
  total-set (y ∷ xs) (suc i) x v e = omega (arith, total-set xs i x v e)

  pub weight-le-total :
      (xs : List A) (i : ℕ) (x : A) → get_elem? xs i ≡ some x → weight x ≤ total xs
  unfolding total
  weight-le-total [] i x e = absurd (cc)
  weight-le-total (y ∷ xs) zero x e = let same : y ≡ x = cc in rw same (omega arith)
  weight-le-total (y ∷ xs) (suc i) x e = omega (arith, weight-le-total xs i x e)

  -- Two threads at different places.
  pub two-le-total :
      (xs : List A) (i j : ℕ) (x y : A)
      → get_elem? xs i ≡ some x
      → get_elem? xs j ≡ some y
      → i < j
      → weight x + weight y ≤ total xs
  unfolding total
  two-le-total [] i j x y e f h = absurd (cc)
  two-le-total (z ∷ xs) i zero x y e f h = elim h [ ]
  two-le-total (z ∷ xs) zero (suc j) x y e f h =
      let same : z ≡ x = cc in rw same (omega (arith, weight-le-total xs j y f))
  two-le-total (z ∷ xs) (suc i) (suc j) x y e f h =
      omega (arith, two-le-total xs i j x y e f (omega arith))
