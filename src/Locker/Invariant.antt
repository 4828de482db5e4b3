-- ===== src/Locker/Invariant.antt =====
-- The lock table of FileLocker and the live guards, step by step.
use diarkis.Base.{
  ℕ, ◌+◌, ◌<◌, List, [], ◌∷◌, ◌++◌, ◌≡◌, refl, ap, ◌⊎◌, inl, inr, Option, none, some, true, false,
  Bytes, same, same_iff, if◌then◌else◌, arith, Option-cases,
}
use diarkis.Base.Int.{pos, inc, dec, is_zero}
use diarkis.Base.Table.{find, put, find-put, find-erase}
use diarkis.Locker.{
  LockTable, LockState, acquired, lock_read, unlock_read, lock_write, unlock_write,
}
use diarkis.Locker.Threads.{
  Guard, read_lock, write_lock, destroy, System, idle, Step, take_read, take_write, drop_guard,
  Reach, start, next, readers, writers,
}

-- What the table holds for a path with `r` readers and `w` writers.
abbrev pub Fits : Option LockState → ℕ → ℕ → Type 0
Fits none r w = (r ≡ 0) × (w ≡ 0)
Fits (some it) r w =
    ((it.reader_count ≡ pos r) × (it.write_locked ≡ false) × (0 < r) × (w ≡ 0))
    ⊎ ((it.reader_count ≡ pos 0) × (it.write_locked ≡ true) × (r ≡ 0) × (w ≡ 1))

abbrev pub Inv : System → Type 0
Inv s = (p : Bytes) → Fits (find p s.locks) (readers p s.guards) (writers p s.guards)

readers-append :
    (p : Bytes) (gs hs : List Guard) → readers p (gs ++ hs) ≡ readers p gs + readers p hs
unfolding readers
readers-append p [] hs = omega arith
readers-append p (read_lock path ∷ gs) hs = ground (arith, readers-append p gs hs)
readers-append p (write_lock path ∷ gs) hs = readers-append p gs hs

writers-append :
    (p : Bytes) (gs hs : List Guard) → writers p (gs ++ hs) ≡ writers p gs + writers p hs
unfolding writers
writers-append p [] hs = omega arith
writers-append p (read_lock path ∷ gs) hs = writers-append p gs hs
writers-append p (write_lock path ∷ gs) hs = ground (arith, writers-append p gs hs)

take_read-Inv :
    (s : System) (path : Bytes) (t : LockTable)
    → lock_read path s.locks ≡ acquired t
    → Inv s
    → Inv (record { locks = t; guards = read_lock path ∷ s.guards })
unfolding lock_read readers writers
take_read-Inv s path t h inv p = elim (Option-cases (find path s.locks)) [
  | inl e ↦ ground (
    arith,
    inv p,
    inv path,
    same_iff path p,
    find-put path p (record { reader_count = pos 1; write_locked = false }) s.locks,
  )
  | inr (it, e) ↦ ground (
    arith,
    inv p,
    inv path,
    same_iff path p,
    find-put path p (record it { reader_count = inc it.reader_count }) s.locks,
  )
]

take_write-Inv :
    (s : System) (path : Bytes) (t : LockTable)
    → lock_write path s.locks ≡ acquired t
    → Inv s
    → Inv (record { locks = t; guards = write_lock path ∷ s.guards })
unfolding lock_write readers writers
take_write-Inv s path t h inv p = elim (Option-cases (find path s.locks)) [
  | inl e ↦ ground (
    arith,
    inv p,
    inv path,
    same_iff path p,
    find-put path p (record { reader_count = pos 0; write_locked = true }) s.locks,
  )
  | inr (it, e) ↦ ground (arith, inv path)
]

-- A guard more of the dropped kind is what the counts lose.
readers-drop :
    (p : Bytes) (before after : List Guard) (g : Guard)
    → readers p (before ++ g ∷ after) ≡ readers p (before ++ after) + readers p (g ∷ [])
unfolding readers
readers-drop p before after (read_lock path) =
    ground (arith, readers-append p before (read_lock path ∷ after), readers-append p before after)
readers-drop p before after (write_lock path) =
    ground (arith, readers-append p before (write_lock path ∷ after), readers-append p before after)

writers-drop :
    (p : Bytes) (before after : List Guard) (g : Guard)
    → writers p (before ++ g ∷ after) ≡ writers p (before ++ after) + writers p (g ∷ [])
unfolding writers
writers-drop p before after (read_lock path) =
    ground (arith, writers-append p before (read_lock path ∷ after), writers-append p before after)
writers-drop p before after (write_lock path) =
    ground (arith, writers-append p before (write_lock path ∷ after), writers-append p before after)

-- The entry of the path after its unlock.
abbrev less_reader : Option LockState → Option LockState
less_reader none = none
less_reader (some it) =
    if is_zero (dec it.reader_count)
    then none
    else some (record it { reader_count = dec it.reader_count })

find-unlock_read :
    (path p : Bytes) (locks : LockTable)
    → find p (unlock_read path locks)
      ≡ (if same path p then less_reader (find path locks) else find p locks)
unfolding unlock_read
find-unlock_read path p locks = elim (Option-cases (find path locks)) [
  | inl e ↦ ground (arith, same_iff path p)
  | inr (it, e) ↦ ground (
    arith,
    same_iff path p,
    find-erase path p (put path (record it { reader_count = dec it.reader_count }) locks),
    find-put path p (record it { reader_count = dec it.reader_count }) locks,
  )
]

find-unlock_write :
    (path p : Bytes) (locks : LockTable)
    → find p (unlock_write path locks) ≡ (if same path p then none else find p locks)
unfolding unlock_write
find-unlock_write path p locks = ground (arith, same_iff path p, find-erase path p locks)

drop_guard-Inv :
    (s : System) (before after : List Guard) (g : Guard)
    → s.guards ≡ before ++ g ∷ after
    → Inv s
    → Inv (record { locks = destroy g s.locks; guards = before ++ after })
unfolding destroy readers writers
drop_guard-Inv s before after (read_lock path) e inv p = ground (
  arith,
  inv p,
  inv path,
  same_iff path p,
  same_iff path path,
  find-unlock_read path p s.locks,
  ap (readers p) e,
  ap (writers p) e,
  ap (readers path) e,
  ap (writers path) e,
  readers-drop p before after (read_lock path),
  writers-drop p before after (read_lock path),
  readers-drop path before after (read_lock path),
  writers-drop path before after (read_lock path),
)
drop_guard-Inv s before after (write_lock path) e inv p = ground (
  arith,
  inv p,
  inv path,
  same_iff path p,
  same_iff path path,
  find-unlock_write path p s.locks,
  ap (readers p) e,
  ap (writers p) e,
  ap (readers path) e,
  ap (writers path) e,
  readers-drop p before after (write_lock path),
  writers-drop p before after (write_lock path),
  readers-drop path before after (write_lock path),
  writers-drop path before after (write_lock path),
)

Step-Inv : {s t : System} → Step s t → Inv s → Inv t
Step-Inv {s} (take_read path t h) inv = take_read-Inv s path t h inv
Step-Inv {s} (take_write path t h) inv = take_write-Inv s path t h inv
Step-Inv {s} (drop_guard before after g e) inv = drop_guard-Inv s before after g e inv

idle-Inv : Inv idle
unfolding find readers writers
idle-Inv p = (refl, refl)

-- In every reachable state the table counts the live guards of every path: no entry for none, the
-- number of readers, or the flag of one writer.
pub Reach-Inv : {s : System} → Reach s → Inv s
Reach-Inv start = idle-Inv
Reach-Inv (next r st) = Step-Inv st (Reach-Inv r)
