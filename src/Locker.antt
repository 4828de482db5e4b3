-- ===== src/Locker.antt =====
-- FileLocker of src/storage.cc and src/include/diarkis/storage.h: readers and writers by path. Each
-- method holds the mutex for one round of its loop, so a round is one step on the table: it either
-- takes the lock or waits on the condition variable and tries again. reader_count does not wrap.
pub mod Laws
pub mod Threads
pub mod Invariant
pub mod Exclusion
mod Examples
use diarkis.Base.{
  List, [], ◌∷◌, Option, none, some, Bool, true, false, not, ◌&&◌, Bytes, if◌then◌else◌,
}
use diarkis.Base.Int.{ℤ, pos, inc, dec, is_zero}
use diarkis.Base.Table.{find, put, erase}

pub record LockState : Type 0 where
  pub reader_count : ℤ
  pub write_locked : Bool

abbrev pub LockTable : Type 0
LockTable = List (Bytes × LockState)

-- One round of a loop.
pub data Attempt : Type 0 where
  acquired : LockTable → Attempt
  waits : Attempt

unfoldable pub lock_read : Bytes → LockTable → Attempt
lock_read path locks = elim (find path locks) [
  | none ↦ acquired (put path (record { reader_count = pos 1; write_locked = false }) locks)
  | some it ↦
      if not it.write_locked
      then acquired (put path (record it { reader_count = inc it.reader_count }) locks)
      else waits
]

unfoldable pub unlock_read : Bytes → LockTable → LockTable
unlock_read path locks = elim (find path locks) [
  | none ↦ locks
  | some it ↦
      let count = dec it.reader_count in
      if is_zero count
      then erase path (put path (record it { reader_count = count }) locks)
      else put path (record it { reader_count = count }) locks
]

unfoldable pub lock_write : Bytes → LockTable → Attempt
lock_write path locks = elim (find path locks) [
  | none ↦ acquired (put path (record { reader_count = pos 0; write_locked = true }) locks)
  | some it ↦
      if is_zero it.reader_count && not it.write_locked
      then acquired (put path (record it { write_locked = true }) locks)
      else waits
]

unfoldable pub unlock_write : Bytes → LockTable → LockTable
unlock_write path locks = elim (find path locks) [ none ↦ locks | some it ↦ erase path locks ]
