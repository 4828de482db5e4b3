-- ===== src/Locker/Exclusion.antt =====
-- FileLocker of src/storage.cc in every interleaving of the threads.
use diarkis.Base.{◌+◌, ◌≤◌, ◌<◌, [], ◌≡◌, ◌↔◌, ap, inl, inr, none, Bytes, arith, Option-cases}
use diarkis.Base.Table.{find}
use diarkis.Locker.{waits, lock_read, lock_write}
use diarkis.Locker.Threads.{System, Reach, readers, writers}
use diarkis.Locker.Invariant.{Reach-Inv}

-- In every state that threads reach from an empty lock table by making and destroying read and
-- write guards in any interleaving, a path has at most one writer, and no reader while it has a
-- writer.
pub writer_excludes :
    {s : System} (path : Bytes)
    → Reach s
    → (writers path s.guards ≤ 1) × (0 < writers path s.guards → readers path s.guards ≡ 0)
writer_excludes {s} path r = elim (Option-cases (find path s.locks)) [
  | inl e ↦ ground (arith, Reach-Inv r path)
  | inr (it, e) ↦ ground (arith, Reach-Inv r path)
]

-- In every reachable state lock_read waits exactly while the path has a writer, and lock_write
-- exactly while it has any guard.
pub waits_iff :
    {s : System} (path : Bytes)
    → Reach s
    → ((lock_read path s.locks ≡ waits) ↔ (0 < writers path s.guards))
      × ((lock_write path s.locks ≡ waits) ↔ (0 < readers path s.guards + writers path s.guards))
unfolding lock_read lock_write
waits_iff {s} path r = elim (Option-cases (find path s.locks)) [
  | inl e ↦ ground (arith, Reach-Inv r path)
  | inr (it, e) ↦ ground (arith, Reach-Inv r path)
]

-- In every reachable state with no guard left the table has no entry for any path: no lock is
-- leaked.
pub released_all : {s : System} (path : Bytes) → Reach s → s.guards ≡ [] → find path s.locks ≡ none
unfolding readers writers
released_all {s} path r e = elim (Option-cases (find path s.locks)) [
  | inl f ↦ f
  | inr (it, f) ↦ ground (arith, Reach-Inv r path, ap (readers path) e, ap (writers path) e)
]
