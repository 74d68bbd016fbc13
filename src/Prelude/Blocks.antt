-- ===== src/Prelude/Blocks.antt =====
-- A list cut into blocks of one size, as files are cut into packets.
use Prim.Native.Nat.{ℕ, zero, suc, ◌+◌, ◌*◌, ◌≤◌}
use mathlib.Core.Path.{◌≡◌, refl, ap}
use mathlib.Core.List.{List, [], ◌∷◌, ◌++◌}
use native.Mathlib.Omega.{arith}
use custom_concurrent_tcp_pr.Prelude.Lists.{length, take, drop, flatten, take_all}

module _ {ℓ} {A : Type ℓ} where
  pub take-add : (a b k : ℕ) (xs : List A) → a + b ≡ k → take a xs ++ take b (drop a xs) ≡ take k xs
  take-add zero b k xs e = let e' : k ≡ b = omega arith in rw e'
  take-add (suc a) zero k [] e = take_nil k
    where
      take_nil : (k : ℕ) → [] ≡ take {A = A} k []
      take_nil zero = refl
      take_nil (suc k) = refl
  take-add (suc a) (suc b) zero [] e = refl
  take-add (suc a) (suc b) (suc k) [] e = refl
  take-add (suc a) b zero (x ∷ xs) e = absurd (omega arith)
  take-add (suc a) b (suc k) (x ∷ xs) e = ap (◌∷◌ x) (take-add a b k xs (omega arith))

  pub drop-drop : (a b k : ℕ) (xs : List A) → a + b ≡ k → drop b (drop a xs) ≡ drop k xs
  drop-drop zero b k xs e = let e' : k ≡ b = omega arith in rw e'
  drop-drop (suc a) zero zero [] e = refl
  drop-drop (suc a) zero (suc k) [] e = refl
  drop-drop (suc a) (suc b) zero [] e = refl
  drop-drop (suc a) (suc b) (suc k) [] e = refl
  drop-drop (suc a) b zero (x ∷ xs) e = absurd (omega arith)
  drop-drop (suc a) b (suc k) (x ∷ xs) e = drop-drop a b k xs (omega arith)

  -- `count` blocks of `size` items, from block `i` on.
  unfoldable pub blocks : ℕ → ℕ → ℕ → List A → List (List A)
  blocks size zero i xs = []
  blocks size (suc count) i xs = take size (drop (i * size) xs) ∷ blocks size count (suc i) xs

  -- The blocks from `i` on are one piece of the list.
  pub flatten-blocks :
      (size count i : ℕ) (xs : List A)
      → flatten (blocks size count i xs) ≡ take (count * size) (drop (i * size) xs)
  unfolding blocks
  flatten-blocks size zero i xs = let none_left : 0 * size ≡ 0 = omega arith in rw none_left
  flatten-blocks size (suc count) i xs =
      rw
        (
          flatten-blocks size count (suc i) xs,
          ← drop-drop (i * size) size (suc i * size) xs (omega arith),
        )
        (take-add size (count * size) (suc count * size) (drop (i * size) xs) (omega arith))

  -- Enough blocks hold the whole list.
  pub flatten-blocks_all :
      (size count : ℕ) (xs : List A)
      → length xs ≤ count * size
      → flatten (blocks size count 0 xs) ≡ xs
  flatten-blocks_all size count xs h =
      let start : 0 * size ≡ 0 = omega arith in
      rw (flatten-blocks size count 0 xs, start) (take_all (count * size) xs h)
