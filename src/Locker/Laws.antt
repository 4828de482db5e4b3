-- ===== src/Locker/Laws.antt =====
-- Pairs of operations of FileLocker on one path.
use diarkis.Base.{
  ◌≡◌, Option, none, some, true, false, not, ◌&&◌, Bytes, same_self, arith, Option-cases, inl, inr,
}
use diarkis.Base.Int.{pos, inc, is_zero, dec-inc}
use diarkis.Base.Table.{find, put, find-put, erase-put, put-put, put_self}
use diarkis.Locker.{
  LockTable, LockState, acquired, lock_read, unlock_read, lock_write, unlock_write,
}

-- No entry, or one with a reader or a writer.
abbrev pub NotIdle : Option LockState → Type 0
NotIdle none = Unit
NotIdle (some it) = (is_zero it.reader_count && not it.write_locked) ≡ false

find-put_self :
    (path : Bytes) (it : LockState) (locks : LockTable) → find path (put path it locks) ≡ some it
find-put_self path it locks = rw (find-put path path it locks, same_self path)

-- Where the lock table has no idle entry for the path, unlock_write behind a lock_write that did
-- not wait gives back the table as it was.
pub unlock_write-lock_write :
    (path : Bytes) (locks t : LockTable)
    → NotIdle (find path locks)
    → lock_write path locks ≡ acquired t
    → unlock_write path t ≡ locks
unfolding lock_write unlock_write
unlock_write-lock_write path locks t busy h = elim (Option-cases (find path locks)) [
  | inl e ↦ ground (
    arith,
    find-put_self path (record { reader_count = pos 0; write_locked = true }) locks,
    erase-put path (record { reader_count = pos 0; write_locked = true }) locks,
  )
  | inr (it, e) ↦ ground arith
]

-- Where the lock table has no idle entry for the path, unlock_read behind a lock_read that did not
-- wait gives back the table as it was.
pub unlock_read-lock_read :
    (path : Bytes) (locks t : LockTable)
    → NotIdle (find path locks)
    → lock_read path locks ≡ acquired t
    → unlock_read path t ≡ locks
unfolding lock_read unlock_read
unlock_read-lock_read path locks t busy h = elim (Option-cases (find path locks)) [
  | inl e ↦ ground (
    arith,
    find-put_self path (record { reader_count = pos 1; write_locked = false }) locks,
    put-put path (record { reader_count = pos 0; write_locked = false })
        (record { reader_count = pos 1; write_locked = false }) locks,
    erase-put path (record { reader_count = pos 0; write_locked = false }) locks,
  )
  | inr (it, e) ↦ ground (
    arith,
    dec-inc it.reader_count,
    find-put_self path (record it { reader_count = inc it.reader_count }) locks,
    put-put path it (record it { reader_count = inc it.reader_count }) locks,
    put_self path it locks,
  )
]

-- On a path with no entry both locks are taken at once, and leave no entry when given back.
pub free_write :
    (path : Bytes) (locks : LockTable)
    → find path locks ≡ none
    → (t : LockTable) × (lock_write path locks ≡ acquired t) × (unlock_write path t ≡ locks)
unfolding lock_write
free_write path locks free =
    let held = put path (record { reader_count = pos 0; write_locked = true }) locks in
    (held, ground arith, unlock_write-lock_write path locks held (rw free tt) (ground arith))

pub free_read :
    (path : Bytes) (locks : LockTable)
    → find path locks ≡ none
    → (t : LockTable) × (lock_read path locks ≡ acquired t) × (unlock_read path t ≡ locks)
unfolding lock_read
free_read path locks free =
    let held = put path (record { reader_count = pos 1; write_locked = false }) locks in
    (held, ground arith, unlock_read-lock_read path locks held (rw free tt) (ground arith))
