-- ===== src/Server/ThreadPool.antt =====
-- server/thread_pool.hpp: the queue of tasks, the stop flag and the workers. A step is what one
-- thread does under `queueMutex`, or a task's run outside of it. A task is a number.
pub mod Queue
pub mod Stop
use custom_concurrent_tcp_pr.Prelude.{
  ℕ, ◌≡◌, Bool, true, false, List, [], ◌∷◌, ◌++◌, some, get_elem?, set, replicate,
}

-- Where the loop of a worker stands: before the queue, in a task, or returned.
pub data Worker : Type 0 where
  waiting : Worker
  running : (task : ℕ) → Worker
  exited : Worker

-- `ThreadPool`, with a record of what was dispatched and of what ended, oldest first.
pub record Pool : Type 0 where
  pub workers : List Worker
  pub tasks : List ℕ
  pub stop_flag : Bool
  pub dispatched : List ℕ
  pub finished : List ℕ

-- `start(num_threads)` on a new pool.
unfoldable pub start : ℕ → Pool
start num_threads = record {
  workers = replicate num_threads waiting;
  tasks = [];
  stop_flag = false;
  dispatched = [];
  finished = [];
}

unfoldable pub dispatch_async : Pool → ℕ → Pool
dispatch_async p task = record p {
  tasks = p.tasks ++ task ∷ [];
  dispatched = p.dispatched ++ task ∷ [];
}

-- `stop` up to its joins, which wait until every worker has returned.
unfoldable pub stop : Pool → Pool
stop p = record p { stop_flag = true }

-- The front task leaves the queue, and worker `i` runs it.
unfoldable pub take_front : Pool → ℕ → ℕ → List ℕ → Pool
take_front p i task rest = record p { workers = set p.workers i (running task); tasks = rest }

unfoldable pub finish : Pool → ℕ → ℕ → Pool
finish p i task = record p { workers = set p.workers i waiting; finished = p.finished ++ task ∷ [] }

-- The `return` of a worker.
unfoldable pub exit : Pool → ℕ → Pool
exit p i = record p { workers = set p.workers i exited }

-- A worker passes `condition.wait` when the flag is set or the queue is not empty, and returns when
-- the flag is set and the queue is empty; else it takes the front task.
pub data Step (p : Pool) : Pool → Type 0 where
  dispatches : (task : ℕ) → Step p (dispatch_async p task)
  stops : Step p (stop p)
  takes :
      (i task : ℕ) (rest : List ℕ)
      → get_elem? p.workers i ≡ some waiting
      → p.tasks ≡ task ∷ rest
      → Step p (take_front p i task rest)
  finishes : (i task : ℕ) → get_elem? p.workers i ≡ some (running task) → Step p (finish p i task)
  exits :
      (i : ℕ)
      → get_elem? p.workers i ≡ some waiting
      → p.stop_flag ≡ true
      → p.tasks ≡ []
      → Step p (exit p i)

pub data Reach (n : ℕ) : Pool → Type 0 where
  here : Reach n (start n)
  next : {p q : Pool} → Reach n p → Step p q → Reach n q
