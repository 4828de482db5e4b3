-- ===== src/Storage/Rename.antt =====
-- Storage::rename takes two write locks, the old path's first.
use diarkis.Base.{◌≡◌, ◌≢◌, refl, none, true, Bytes, same_iff, arith, Option-cases, ◌⊎◌, inl, inr}
use diarkis.Base.Int.{pos}
use diarkis.Base.Table.{find, find-put}
use diarkis.Error.{result_ok}
use diarkis.Path.{validate_path}
use diarkis.Locker.{LockTable, Attempt, acquired, waits, lock_write}
use diarkis.Locker.Laws.{NotIdle, free_write}
use diarkis.Posix.{Posix}
use diarkis.Storage.Monad.{Storage, blocks}
use diarkis.Storage.Quiet.{Clean, Quiet-resolving, with_write-Clean}
use diarkis.Storage.Locking.{validated-Clean, rename_at-Quiet}
use diarkis.Storage.Entries.{rename_locked, rename}

-- Another path's lock does not get in the way.
free-lock_write :
    (p q : Bytes) (locks t : LockTable)
    → p ≢ q
    → find p locks ≡ none
    → find q locks ≡ none
    → lock_write p locks ≡ acquired t
    → find q t ≡ none
unfolding lock_write
free-lock_write p q locks t differ free_p free_q h =
    ground (
      arith,
      same_iff p q,
      find-put p q (record { reader_count = pos 0; write_locked = true }) locks,
    )

-- A write lock that was taken makes the same path wait.
waits-lock_write :
    (p : Bytes) (locks t : LockTable)
    → NotIdle (find p locks)
    → lock_write p locks ≡ acquired t
    → lock_write p t ≡ waits
unfolding lock_write
waits-lock_write p locks t busy h = elim (Option-cases (find p locks)) [
  | inl e ↦ ground (
    arith,
    same_iff p p,
    find-put p p (record { reader_count = pos 0; write_locked = true }) locks,
  )
  | inr (it, e) ↦ ground arith
]

Attempt-cases : (a : Attempt) → (a ≡ waits) ⊎ ((t : LockTable) × (a ≡ acquired t))
Attempt-cases waits = inl refl
Attempt-cases (acquired t) = inr (t, refl)

module _ {W : Type 0} (os : Posix W) (s : Storage W) where
  rename_locked-Quiet-scope :
      (old_path new_path : Bytes) (t : LockTable)
      → find new_path t ≡ none
      → Clean
          (record s { file_locker = t })
          (rename_locked os old_path new_path (record s { file_locker = t }))
  rename_locked-Quiet-scope old_path new_path t free =
      with_write-Clean new_path _ (record s { file_locker = t })
        (Quiet-resolving old_path _
          λ full_old. Quiet-resolving new_path _ λ full_new. rename_at-Quiet os full_old full_new)
        free

  -- On two different paths that nobody locks rename waits for no lock, and the lock table is as it
  -- was when it ends.
  pub rename-Clean :
      (old_path new_path : Bytes)
      → old_path ≢ new_path
      → find old_path s.file_locker ≡ none
      → find new_path s.file_locker ≡ none
      → Clean s (rename os old_path new_path s)
  unfolding rename
  rename-Clean old_path new_path differ free_old free_new =
      let (t, taken, back) = free_write old_path s.file_locker free_old in
      validated-Clean old_path _ s (
        validated-Clean new_path _ s (
          ground (
            arith,
            rename_locked-Quiet-scope old_path new_path t
                (free-lock_write old_path new_path s.file_locker t differ free_old free_new taken),
          )))

  -- Renaming an accepted path to itself, where the lock table has no idle entry for it, waits for
  -- ever: for a lock of another thread, or for the lock that this very call holds.
  pub rename_self_blocks :
      (path : Bytes)
      → result_ok (validate_path path) ≡ true
      → NotIdle (find path s.file_locker)
      → rename os path path s ≡ blocks
  unfolding rename
  rename_self_blocks path valid busy = elim (Attempt-cases (lock_write path s.file_locker)) [
    | inl e ↦ ground arith
    | inr (t, e) ↦ ground (arith, waits-lock_write path s.file_locker t busy e)
  ]
