-- ===== src/Server/RwLock/Exclusion.antt =====
-- At most one thread holds the lock, a reader as well as a writer.
use custom_concurrent_tcp_pr.Prelude.{
  ℕ, zero, suc, ◌≤◌, ◌≡◌, refl, ◌≢◌, ◌↔◌, true, List, [], ◌∷◌, some, get_elem?, replicate, total,
  total-set, two-le-total, weight-le-total, if◌then◌else◌, arith,
}
use custom_concurrent_tcp_pr.Server.RwLock.{
  new_lock, is_free, read_lock, read_unlock, write_lock, write_unlock, Holding, outside, reading,
  writing, System, Step, enter_read, leave_read, enter_write, leave_write, Reach, here, next,
}

abbrev pub holds : Holding → ℕ
holds outside = 0
holds reading = 1
holds writing = 1

abbrev pub writes : Holding → ℕ
writes outside = 0
writes reading = 0
writes writing = 1

-- The flags count the threads in the scopes of the guards.
pub record Inv (s : System) : Type 0 where
  pub locked : total holds s.threads ≡ (if s.lock.is_locked then 1 else 0)
  pub writer : total writes s.threads ≡ (if s.lock.is_writer_active then 1 else 0)

abbrev pub start : ℕ → System
start n = record { lock = new_lock; threads = replicate n outside }

none_inside : (w : Holding → ℕ) (n : ℕ) → w outside ≡ 0 → total w (replicate n outside) ≡ 0
unfolding total
none_inside w zero e = refl
none_inside w (suc n) e = omega (arith, none_inside w n e)

start-Inv : (n : ℕ) → Inv (start n)
unfolding new_lock
start-Inv n = record { locked = none_inside holds n refl; writer = none_inside writes n refl }

Step-Inv : {s t : System} → Step s t → Inv s → Inv t
unfolding is_free read_lock read_unlock write_lock write_unlock
Step-Inv {s} (enter_read i e f) v = ground (
  arith,
  total-set holds s.threads i outside reading e,
  total-set writes s.threads i outside reading e,
)
Step-Inv {s} (leave_read i e) v = ground (
  arith,
  total-set holds s.threads i reading outside e,
  total-set writes s.threads i reading outside e,
  weight-le-total holds s.threads i reading e,
)
Step-Inv {s} (enter_write i e f) v = ground (
  arith,
  total-set holds s.threads i outside writing e,
  total-set writes s.threads i outside writing e,
)
Step-Inv {s} (leave_write i e) v = ground (
  arith,
  total-set holds s.threads i writing outside e,
  total-set writes s.threads i writing outside e,
  weight-le-total holds s.threads i writing e,
  weight-le-total writes s.threads i writing e,
)

Reach-Inv : (n : ℕ) {s : System} → Reach (start n) s → Inv s
Reach-Inv n here = start-Inv n
Reach-Inv n (next r st) = Step-Inv st (Reach-Inv n r)

holds-pos : (h : Holding) → h ≢ outside → holds h ≡ 1
holds-pos outside n = absurd (n refl)
holds-pos reading n = refl
holds-pos writing n = refl

total-writes-le : (ts : List Holding) → total writes ts ≤ total holds ts
unfolding total
total-writes-le [] = omega arith
total-writes-le (outside ∷ ts) = omega (arith, total-writes-le ts)
total-writes-le (reading ∷ ts) = omega (arith, total-writes-le ts)
total-writes-le (writing ∷ ts) = omega (arith, total-writes-le ts)

-- From a new lock and any number of threads outside, two threads are never inside guards at the same
-- time, of whatever kind the guards are. So two readers exclude one another too.
pub guards_exclude :
    (n : ℕ) {s : System}
    → Reach (start n) s
    → (i j : ℕ) {h k : Holding} → get_elem? s.threads i ≡ some h
    → get_elem? s.threads j ≡ some k
    → h ≢ outside
    → k ≢ outside
    → i ≡ j
guards_exclude n {s} r i j {h} {k} e f p q = ground (
  arith,
  (Reach-Inv n r).locked,
  holds-pos h p,
  holds-pos k q,
  two-le-total holds s.threads i j h k e f,
  two-le-total holds s.threads j i k h f e,
)

-- The lock is free exactly when nobody is inside a guard.
pub is_free_iff :
    (n : ℕ) {s : System} → Reach (start n) s → (is_free s.lock ≡ true) ↔ (total holds s.threads ≡ 0)
unfolding is_free
is_free_iff n {s} r =
    let v = Reach-Inv n r in
    let bound = total-writes-le s.threads in
    ((λ free. ground (arith, v.locked)), (λ none_in. ground (arith, v.locked, v.writer)))
