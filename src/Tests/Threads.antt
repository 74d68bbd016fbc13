-- ===== src/Tests/Threads.antt =====
-- Runs of the thread pool and of the lock.
use custom_concurrent_tcp_pr.Prelude.{ℕ, ◌≡◌, refl, [], ◌∷◌}
use custom_concurrent_tcp_pr.Server.ThreadPool.{
  Pool, start, dispatch_async, stop, take_front, finish, exit, dispatches, stops, takes, finishes,
  exits,
}
use custom_concurrent_tcp_pr.Server.ThreadPool.Queue.{count, Accounted, Reach-Accounted}
use custom_concurrent_tcp_pr.Server.ThreadPool.Stop.{
  OrderlyReach, begin, onward, to_Reach, stop_finishes_tasks,
}
use custom_concurrent_tcp_pr.Server.RwLock.{enter_read, is_free, reading, outside}
use custom_concurrent_tcp_pr.Server.RwLock
use custom_concurrent_tcp_pr.Server.RwLock.Exclusion
use custom_concurrent_tcp_pr.Server.RwLock.Exclusion.{holds, guards_exclude, is_free_iff}

-- One worker and the task 5, which is dispatched and run before a stop.
abbrev in_task : Pool
in_task = take_front (dispatch_async (start 1) 5) 0 5 []

in_task_reached : OrderlyReach 1 in_task
unfolding start dispatch_async
in_task_reached = onward (onward begin (dispatches 5) refl) (takes 0 5 [] refl refl) tt

abbrev stopped_pool : Pool
stopped_pool = exit (finish (stop in_task) 0 5) 0

stopped_pool_reached : OrderlyReach 1 stopped_pool
unfolding start dispatch_async take_front stop finish
stopped_pool_reached =
    onward (onward (onward in_task_reached stops tt) (finishes 0 5 refl) tt)
      (exits 0 refl refl refl) tt

Reach-Accounted_example : Accounted stopped_pool
Reach-Accounted_example = Reach-Accounted 1 (to_Reach 1 stopped_pool_reached)

stop_finishes_tasks_example :
    (stopped_pool.tasks ≡ [])
    × ((a : ℕ) → count a stopped_pool.dispatched ≡ count a stopped_pool.finished)
unfolding start dispatch_async take_front stop finish exit
stop_finishes_tasks_example = stop_finishes_tasks 1 stopped_pool_reached (λ e. cc) (refl, tt)

-- Two threads, of which the first has a `ReadLockGuard`.
abbrev one_reader : RwLock.System
one_reader = record { lock = RwLock.read_lock RwLock.new_lock; threads = reading ∷ outside ∷ [] }

one_reader_reached : RwLock.Reach (Exclusion.start 2) one_reader
unfolding RwLock.new_lock RwLock.is_free
one_reader_reached = RwLock.next RwLock.here (enter_read 0 refl refl)

guards_exclude_example : ◌≡◌ {A = ℕ} 0 0
guards_exclude_example = guards_exclude 2 one_reader_reached 0 0 refl refl (λ e. cc) (λ e. cc)
