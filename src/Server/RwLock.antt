-- ===== src/Server/RwLock.antt =====
-- server/rw_lock.hpp: the lock's two flags, and the threads that go through its guards. A step is
-- what one thread does while it holds the mutex; a thread that waits takes no step until its
-- condition holds.
pub mod Exclusion
use custom_concurrent_tcp_pr.Prelude.{
  ℕ, ◌≡◌, Bool, true, false, not, ◌&&◌, List, some, get_elem?, set,
}

-- The fields of `ReadWriteLock` beside the mutex and the condition variable.
pub record ReadWriteLock : Type 0 where
  pub is_locked : Bool
  pub is_writer_active : Bool

unfoldable pub new_lock : ReadWriteLock
new_lock = record { is_locked = false; is_writer_active = false }

-- The condition that `read_lock` and `write_lock` wait for.
unfoldable pub is_free : ReadWriteLock → Bool
is_free l = not l.is_locked && not l.is_writer_active

unfoldable pub read_lock : ReadWriteLock → ReadWriteLock
read_lock l = record l { is_locked = true }

unfoldable pub read_unlock : ReadWriteLock → ReadWriteLock
read_unlock l = record l { is_locked = false }

unfoldable pub write_lock : ReadWriteLock → ReadWriteLock
write_lock l = record { is_locked = true; is_writer_active = true }

unfoldable pub write_unlock : ReadWriteLock → ReadWriteLock
write_unlock l = record { is_locked = false; is_writer_active = false }

-- Where a thread stands: outside, or in the scope of a `ReadLockGuard` or a `WriteLockGuard`.
pub data Holding : Type 0 where
  outside reading writing : Holding

pub record System : Type 0 where
  pub lock : ReadWriteLock
  pub threads : List Holding

-- A guard is made outside of any other, and destroyed by the thread that made it.
pub data Step (s : System) : System → Type 0 where
  enter_read :
      (i : ℕ)
      → get_elem? s.threads i ≡ some outside
      → is_free s.lock ≡ true
      → Step s (record { lock = read_lock s.lock; threads = set s.threads i reading })
  leave_read :
      (i : ℕ)
      → get_elem? s.threads i ≡ some reading
      → Step s (record { lock = read_unlock s.lock; threads = set s.threads i outside })
  enter_write :
      (i : ℕ)
      → get_elem? s.threads i ≡ some outside
      → is_free s.lock ≡ true
      → Step s (record { lock = write_lock s.lock; threads = set s.threads i writing })
  leave_write :
      (i : ℕ)
      → get_elem? s.threads i ≡ some writing
      → Step s (record { lock = write_unlock s.lock; threads = set s.threads i outside })

pub data Reach (s : System) : System → Type 0 where
  here : Reach s s
  next : {t u : System} → Reach s t → Step t u → Reach s u
