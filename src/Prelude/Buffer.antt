-- ===== src/Prelude/Buffer.antt =====
-- A fixed array of bytes as a function from offsets, and the lists that lie in it.
use Prim.Native.Nat.{ℕ, zero, suc, ◌+◌, ◌-◌, ◌≤◌, ◌<◌}
use mathlib.Core.Path.{◌≡◌, refl, ap, ap₂}
use mathlib.Core.Bool.{◌&&◌}
use mathlib.Core.List.{List, [], ◌∷◌, ◌++◌}
use native.Mathlib.Omega.{arith}
use custom_concurrent_tcp_pr.Prelude.Tests.{ltb, leb, if◌then◌else◌}
use custom_concurrent_tcp_pr.Prelude.Lists.{length, get_or, take, drop}

abbrev pub Memory : Type 0
Memory = ℕ → ℕ

-- The `n` bytes from offset `i` on.
unfoldable pub slice : Memory → ℕ → ℕ → List ℕ
slice m i zero = []
slice m i (suc n) = m i ∷ slice m (suc i) n

-- `memcpy(m + pos, bs)`
unfoldable pub write_at : Memory → ℕ → List ℕ → Memory
write_at m pos bs j = if leb pos j && ltb j (pos + length bs) then get_or bs (j - pos) 0 else m j

-- `memmove(m, m + from, n)`
unfoldable pub move_down : Memory → ℕ → ℕ → Memory
move_down m from n j = if ltb j n then m (j + from) else m j

pub length-slice : (m : Memory) (i n : ℕ) → length (slice m i n) ≡ n
unfolding slice
length-slice m i zero = refl
length-slice m i (suc n) = ap suc (length-slice m (suc i) n)

pub slice-congr :
    (m m' : Memory) (i i' n : ℕ)
    → ((j : ℕ) → j < n → m (i + j) ≡ m' (i' + j))
    → slice m i n ≡ slice m' i' n
unfolding slice
slice-congr m m' i i' zero h = refl
slice-congr m m' i i' (suc n) h =
    ap₂ ◌∷◌ (first (h 0 (omega arith)))
      (slice-congr m m' (suc i) (suc i') n λ j q. shift j (h (suc j) (omega arith)))
  where
    first : m (i + 0) ≡ m' (i' + 0) → m i ≡ m' i'
    first e = ground arith

    shift : (j : ℕ) → m (i + suc j) ≡ m' (i' + suc j) → m (suc i + j) ≡ m' (suc i' + j)
    shift j e = ground arith

pub slice-append :
    (m : Memory) (i a b c : ℕ) → a + b ≡ c → slice m i c ≡ slice m i a ++ slice m (i + a) b
unfolding slice
slice-append m i zero b c e = ground arith
slice-append m i (suc a) b zero e = absurd (omega arith)
slice-append m i (suc a) b (suc c) e = ground (arith, slice-append m (suc i) a b c)

pub slice-move_down : (m : Memory) (from n : ℕ) → slice (move_down m from n) 0 n ≡ slice m from n
unfolding move_down
slice-move_down m from n = slice-congr (move_down m from n) m 0 from n (λ j h. ground arith)

-- Below the place of a write nothing changes.
pub slice-write_at_below :
    (m : Memory) (pos : ℕ) (bs : List ℕ) → slice (write_at m pos bs) 0 pos ≡ slice m 0 pos
unfolding write_at
slice-write_at_below m pos bs = slice-congr (write_at m pos bs) m 0 0 pos (λ j h. ground arith)

-- A list lies at `i` if its items do.
slice-eq :
    (m : Memory) (i : ℕ) (bs : List ℕ)
    → ((j : ℕ) → j < length bs → m (i + j) ≡ get_or bs j 0)
    → slice m i (length bs) ≡ bs
unfolding slice
slice-eq m i [] h = refl
slice-eq m i (b ∷ bs) h =
    ap₂ ◌∷◌ (first (h 0 (omega arith)))
      (slice-eq m (suc i) bs λ j q. shift j (h (suc j) (omega arith)))
  where
    first : m (i + 0) ≡ b → m i ≡ b
    first e = ground arith

    shift : (j : ℕ) → m (i + suc j) ≡ get_or bs j 0 → m (suc i + j) ≡ get_or bs j 0
    shift j e = ground arith

pub slice-write_at :
    (m : Memory) (pos : ℕ) (bs : List ℕ) → slice (write_at m pos bs) pos (length bs) ≡ bs
unfolding write_at
slice-write_at m pos bs = slice-eq (write_at m pos bs) pos bs (λ j h. ground arith)

pub get_or-slice : (m : Memory) (i n j d : ℕ) → j < n → get_or (slice m i n) j d ≡ m (i + j)
unfolding slice
get_or-slice m i zero j d h = elim h [ ]
get_or-slice m i (suc n) zero d h = ground arith
get_or-slice m i (suc n) (suc j) d h = ground (arith, get_or-slice m (suc i) n j d)

pub take-slice : (m : Memory) (i n k : ℕ) → n ≤ k → take n (slice m i k) ≡ slice m i n
unfolding slice
take-slice m i zero k h = refl
take-slice m i (suc n) zero h = elim h [ ]
take-slice m i (suc n) (suc k) h = ap (◌∷◌ (m i)) (take-slice m (suc i) n k (omega arith))

pub drop-slice : (m : Memory) (i n k : ℕ) → n ≤ k → drop n (slice m i k) ≡ slice m (i + n) (k - n)
unfolding slice
drop-slice m i zero k h = ground arith
drop-slice m i (suc n) zero h = elim h [ ]
drop-slice m i (suc n) (suc k) h = ground (arith, drop-slice m (suc i) n k)
