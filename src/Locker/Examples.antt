-- ===== src/Locker/Examples.antt =====
-- FileLocker on concrete paths.
use diarkis.Base.{◌+◌, ◌≤◌, ◌<◌, [], ◌∷◌, ◌≡◌, ◌↔◌, refl, none, true, Bytes}
use diarkis.Base.Int.{pos}
use diarkis.Base.Table.{find, put, erase}
use diarkis.Locker.{waits, lock_read, lock_write, unlock_write}
use diarkis.Locker.Threads.{
  System, write_lock, take_write, drop_guard, destroy, Reach, start, next, readers, writers,
}
use diarkis.Locker.Exclusion.{writer_excludes, waits_iff, released_all}

abbrev a : Bytes
a = 0x61 ∷ []

abbrev writing : System
writing = record {
  locks = (a, record { reader_count = pos 0; write_locked = true }) ∷ [];
  guards = write_lock a ∷ [];
}

writing-Reach : Reach writing
unfolding lock_write find put
writing-Reach = next start (take_write a _ refl)

abbrev released : System
released = record { locks = []; guards = [] }

released-Reach : Reach released
unfolding destroy unlock_write find erase
released-Reach = next writing-Reach (drop_guard [] [] (write_lock a) refl)

writer_excludes_example :
    (writers a writing.guards ≤ 1) × (0 < writers a writing.guards → readers a writing.guards ≡ 0)
writer_excludes_example = writer_excludes a writing-Reach

waits_iff_example :
    ((lock_read a writing.locks ≡ waits) ↔ (0 < writers a writing.guards))
    × ((lock_write a writing.locks ≡ waits)
        ↔ (0 < readers a writing.guards + writers a writing.guards))
waits_iff_example = waits_iff a writing-Reach

released_all_example : find a released.locks ≡ none
released_all_example = released_all a released-Reach refl
