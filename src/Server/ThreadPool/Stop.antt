-- ===== src/Server/ThreadPool/Stop.antt =====
-- After a stop the workers empty the queue before they return.
use custom_concurrent_tcp_pr.Prelude.{
  ℕ, zero, suc, ◌≡◌, refl, ap, ◌≢◌, ◌⊎◌, inl, inr, true, false, List, [], ◌∷◌, replicate, total,
  total-set, arith, All,
}
use custom_concurrent_tcp_pr.Server.ThreadPool.{
  Worker, waiting, running, exited, Pool, start, dispatch_async, stop, take_front, finish, exit,
  Step, dispatches, stops, takes, finishes, exits, Reach, here, next,
}
use custom_concurrent_tcp_pr.Server.ThreadPool.Queue.{count, runs, Reach-Accounted}

-- Nothing is dispatched once the pool is stopped.
abbrev pub IsOrderly : {p q : Pool} → Step p q → Type 0
IsOrderly {p} (dispatches task) = p.stop_flag ≡ false
IsOrderly _ = Unit {0}

pub data OrderlyReach (n : ℕ) : Pool → Type 0 where
  begin : OrderlyReach n (start n)
  onward : {p q : Pool} → OrderlyReach n p → (st : Step p q) → IsOrderly st → OrderlyReach n q

abbrev pub is_exited : Worker → ℕ
is_exited exited = 1
is_exited _ = 0

-- As long as a worker has not been told to stop none has returned, and once one has the queue is
-- empty.
abbrev IsDrained : Pool → Type 0
IsDrained p = (total is_exited p.workers ≡ 0) ⊎ ((p.stop_flag ≡ true) × (p.tasks ≡ []))

Step-IsDrained : {p q : Pool} (st : Step p q) → IsOrderly st → IsDrained p → IsDrained q
unfolding dispatch_async stop take_front finish exit
Step-IsDrained {p} (dispatches task) o h = ground arith
Step-IsDrained {p} stops o h = ground arith
Step-IsDrained {p} (takes i task rest e f) o h =
    ground (arith, total-set is_exited p.workers i waiting (running task) e)
Step-IsDrained {p} (finishes i task e) o h =
    ground (arith, total-set is_exited p.workers i (running task) waiting e)
Step-IsDrained {p} (exits i e f g) o h = inr (f, g)

none_exited : (n : ℕ) → total is_exited (replicate n waiting) ≡ 0
unfolding total
none_exited zero = refl
none_exited (suc n) = omega (arith, none_exited n)

pub to_Reach : (n : ℕ) {p : Pool} → OrderlyReach n p → Reach n p
to_Reach n begin = here
to_Reach n (onward r st o) = next (to_Reach n r) st

drained : (n : ℕ) {p : Pool} → OrderlyReach n p → IsDrained p
unfolding start
drained n begin = inl (none_exited n)
drained n (onward r st o) = Step-IsDrained st o (drained n r)

exited_idle : (a : ℕ) (ws : List Worker) → All (λ w. w ≡ exited) ws → total (runs a) ws ≡ 0
unfolding total
exited_idle a [] h = refl
exited_idle a (w ∷ ws) h = rw h.0 (omega (arith, exited_idle a ws h.1))

some_exited : (ws : List Worker) → ws ≢ [] → All (λ w. w ≡ exited) ws → total is_exited ws ≢ 0
unfolding total
some_exited [] n h = absurd (n refl)
some_exited (w ∷ ws) n h = let e = h.0 in ground arith

-- If nothing is dispatched after the stop, then once all workers have returned, which is when `stop`
-- returns, the queue is empty and every task has run to its end as often as it was dispatched.
pub stop_finishes_tasks :
    (n : ℕ) {p : Pool}
    → OrderlyReach n p
    → p.workers ≢ []
    → All (λ w. w ≡ exited) p.workers
    → (p.tasks ≡ []) × ((a : ℕ) → count a p.dispatched ≡ count a p.finished)
stop_finishes_tasks n {p} r some_worker all = (empty_queue, counts)
  where
    empty_queue : p.tasks ≡ []
    empty_queue = elim (drained n r) [
      | inl none_left ↦ absurd (some_exited p.workers some_worker all none_left)
      | inr (_, e) ↦ e
    ]

    counts : (a : ℕ) → count a p.dispatched ≡ count a p.finished
    counts a =
        let accounted = Reach-Accounted n (to_Reach n r) a in
        omega (arith, accounted, ap (count a) empty_queue, exited_idle a p.workers all)
