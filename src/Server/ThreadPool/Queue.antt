-- ===== src/Server/ThreadPool/Queue.antt =====
-- Every task that is dispatched runs at most once, and none is lost.
use custom_concurrent_tcp_pr.Prelude.{
  ℕ, zero, suc, ◌+◌, ◌≡◌, refl, ◌==◌, List, [], ◌∷◌, ◌++◌, replicate, total, total-set,
  if◌then◌else◌, arith,
}
use custom_concurrent_tcp_pr.Server.ThreadPool.{
  Worker, waiting, running, exited, Pool, start, dispatch_async, stop, take_front, finish, exit,
  Step, dispatches, stops, takes, finishes, exits, Reach, here, next,
}

-- How often a task stands in a queue.
abbrev pub count : ℕ → List ℕ → ℕ
count task [] = 0
count task (front ∷ queue) =
    let behind = count task queue in if front == task then suc behind else behind

count-append :
    (task : ℕ) (queue more : List ℕ)
    → count task (queue ++ more) ≡ count task queue + count task more
count-append task [] more = ground arith
count-append task (front ∷ queue) more = ground (arith, count-append task queue more)

-- Whether a worker is in a run of the task.
abbrev pub runs : ℕ → Worker → ℕ
runs a waiting = 0
runs a exited = 0
runs a (running task) = if task == a then 1 else 0

-- A task is in the queue, in a run, or finished, as often as it was dispatched.
abbrev pub Accounted : Pool → Type 0
Accounted p =
    (a : ℕ) → count a p.dispatched ≡ count a p.tasks + total (runs a) p.workers + count a p.finished

idle_workers : (a n : ℕ) → total (runs a) (replicate n waiting) ≡ 0
unfolding total
idle_workers a zero = refl
idle_workers a (suc n) = omega (arith, idle_workers a n)

Step-Accounted : {p q : Pool} → Step p q → Accounted p → Accounted q
unfolding dispatch_async stop take_front finish exit
Step-Accounted {p} (dispatches task) h a =
    omega (arith, h a, count-append a p.tasks (task ∷ []), count-append a p.dispatched (task ∷ []))
Step-Accounted stops h a = h a
Step-Accounted {p} (takes i task rest e f) h a =
    ground (arith, h a, total-set (runs a) p.workers i waiting (running task) e)
Step-Accounted {p} (finishes i task e) h a = omega (
  arith,
  h a,
  total-set (runs a) p.workers i (running task) waiting e,
  count-append a p.finished (task ∷ []),
)
Step-Accounted {p} (exits i e f g) h a =
    omega (arith, h a, total-set (runs a) p.workers i waiting exited e)

-- Whatever the threads do, each task that was dispatched is in the queue, in a run of a worker, or
-- finished, exactly as often as it was dispatched: none is lost, and none runs twice.
pub Reach-Accounted : (n : ℕ) {p : Pool} → Reach n p → Accounted p
unfolding start
Reach-Accounted n here a = omega (arith, idle_workers a n)
Reach-Accounted n (next r st) a = Step-Accounted st (Reach-Accounted n r) a
