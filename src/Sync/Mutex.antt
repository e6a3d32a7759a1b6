-- ===== src/Sync/Mutex.antt =====
-- MutexLock and MutexLockGuard (base/MutexLock.h). The pthread mutex is given: it keeps the thread
-- that holds it, and pthread_mutex_lock comes back only when nobody does.
use jinyi.Prelude.{ℕ, Option, none, some}

pub record MutexLock : Type 0 where
  pub owner : Option ℕ

abbrev pub new_mutex : MutexLock
new_mutex = record { owner = none }

-- `lock`, called in the thread `i`: `none` as long as it would block.
unfoldable pub lock : ℕ → MutexLock → Option MutexLock
lock i m = elim m.owner [ none ↦ some (record { owner = some i }) | some j ↦ none ]

unfoldable pub unlock : MutexLock → MutexLock
unlock m = record { owner = none }
