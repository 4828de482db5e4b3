-- ===== src/Locker/Threads.antt =====
-- The threads that use a FileLocker, as interleaved steps: a guard (ReadLock, WriteLock) is made when
-- a round of its lock's loop succeeds, and any live guard may be destroyed next. A thread that waits
-- makes no step: after a notify_all it tries the same round again.
use diarkis.Base.{ℕ, suc, List, [], ◌∷◌, ◌++◌, ◌≡◌, Bytes, same, if◌then◌else◌}
use diarkis.Locker.{LockTable, acquired, lock_read, unlock_read, lock_write, unlock_write}

-- ReadLock and WriteLock, with their path_
pub data Guard : Type 0 where
  read_lock write_lock : Bytes → Guard

-- ~ReadLock and ~WriteLock
unfoldable pub destroy : Guard → LockTable → LockTable
destroy (read_lock path) locks = unlock_read path locks
destroy (write_lock path) locks = unlock_write path locks

pub record System : Type 0 where
  pub locks : LockTable
  pub guards : List Guard

abbrev pub idle : System
idle = record { locks = []; guards = [] }

pub data Step (s : System) : System → Type 0 where
  take_read :
      (path : Bytes) (t : LockTable)
      → lock_read path s.locks ≡ acquired t
      → Step s (record { locks = t; guards = read_lock path ∷ s.guards })
  take_write :
      (path : Bytes) (t : LockTable)
      → lock_write path s.locks ≡ acquired t
      → Step s (record { locks = t; guards = write_lock path ∷ s.guards })
  drop_guard :
      (before after : List Guard) (g : Guard)
      → s.guards ≡ before ++ g ∷ after
      → Step s (record { locks = destroy g s.locks; guards = before ++ after })

pub data Reach : System → Type 0 where
  start : Reach idle
  next : {s t : System} → Reach s → Step s t → Reach t

-- How many live guards of each kind a path has.
unfoldable pub readers : Bytes → List Guard → ℕ
readers p [] = 0
readers p (read_lock path ∷ gs) = if same path p then suc (readers p gs) else readers p gs
readers p (write_lock path ∷ gs) = readers p gs

unfoldable pub writers : Bytes → List Guard → ℕ
writers p [] = 0
writers p (read_lock path ∷ gs) = writers p gs
writers p (write_lock path ∷ gs) = if same path p then suc (writers p gs) else writers p gs
