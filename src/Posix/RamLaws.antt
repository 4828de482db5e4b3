-- ===== src/Posix/RamLaws.antt =====
-- The laws of the system in memory.
use diarkis.Base.{
  ℕ, zero, suc, ◌+◌, ◌≤◌, ◌<◌, ◌≡◌, ◌≢◌, [], ◌∷◌, ◌++◌, refl, ap, some, Bytes, length, take, drop,
  arith, length-take, length-drop, same_iff,
}
use diarkis.Base.Table.{find, find-put}
use diarkis.Error.{Errno, zero_errno, eintr}
use diarkis.Posix.{
  returned, failed, OpenMode, create_exclusive, write_truncate, write_append, read_only, Stat,
}
use diarkis.Posix.Laws.{Laws, or_nil}
use diarkis.Posix.Ram.{Ram, ram, open_file, write_bytes, read_bytes, stat_file, writing}

pub ram_write :
    (p c b : Bytes) (fd n : ℕ) (w w' : Ram)
    → writing w.handle ≡ some p
    → find p w.files ≡ some c
    → write_bytes fd b w ≡ (returned n, w')
    → (writing w'.handle ≡ some p)
      × (find p w'.files ≡ some (c ++ take n b))
      × (n ≤ length b)
      × (0 < length b → 0 < n)
      × (w'.signals ≤ w.signals)
unfolding write_bytes
ram_write p c b fd n w w' wr co e =
    ground (arith, length-take (suc w.chunk) b, same_iff p p, find-put p p (c ++ take n b) w.files)

pub ram_write_failed :
    (p c b : Bytes) (fd : ℕ) (err : Errno) (w w' : Ram)
    → writing w.handle ≡ some p
    → find p w.files ≡ some c
    → write_bytes fd b w ≡ (failed err, w')
    → (writing w'.handle ≡ some p)
      × (find p w'.files ≡ some c)
      × (err ≢ zero_errno)
      × (err ≡ eintr → w'.signals < w.signals)
unfolding write_bytes
ram_write_failed p c b fd err w w' wr co e = ground arith

take-length-take-take :
    (n m : ℕ) (xs : Bytes) → take (length (take n (take m xs))) xs ≡ take n (take m xs)
take-length-take-take zero m xs = refl
take-length-take-take (suc n) zero xs = refl
take-length-take-take (suc n) (suc m) [] = refl
take-length-take-take (suc n) (suc m) (x ∷ xs) = ap (◌∷◌ x) (take-length-take-take n m xs)

pub ram_read :
    (p c b : Bytes) (k fd n : ℕ) (w w' : Ram)
    → w.handle ≡ some (p, k)
    → find p w.files ≡ some c
    → read_bytes fd n w ≡ (returned b, w')
    → (w'.handle ≡ some (p, k + length b))
      × (find p w'.files ≡ some c)
      × (b ≡ take (length b) (drop k c))
      × (0 < n → k < length c → 0 < length b)
      × (w'.signals ≤ w.signals)
unfolding read_bytes
ram_read p c b k fd n w w' rd co e = ground (
  arith,
  take-length-take-take n (suc w.chunk) (drop k c),
  length-take n (take (suc w.chunk) (drop k c)),
  length-take (suc w.chunk) (drop k c),
  length-drop k c,
)

pub ram_open_failed :
    (m : OpenMode) (p : Bytes) (w w' : Ram) (err : Errno)
    → open_file m p w ≡ (failed err, w')
    → (find p w'.files ≡ find p w.files) × (err ≢ zero_errno)
unfolding open_file
ram_open_failed (create_exclusive m) p w w' err e = ground arith
ram_open_failed (write_truncate m) p w w' err e = ground arith
ram_open_failed (write_append m) p w w' err e = ground arith
ram_open_failed read_only p w w' err e = ground arith

pub ram_open_truncate :
    (m : ℕ) (p : Bytes) (w w' : Ram) (fd : ℕ)
    → open_file (write_truncate m) p w ≡ (returned fd, w')
    → (writing w'.handle ≡ some p) × (find p w'.files ≡ some []) × (w'.signals ≤ w.signals)
unfolding open_file
ram_open_truncate m p w w' fd e = ground (arith, same_iff p p, find-put p p [] w.files)

pub ram_open_append :
    (m : ℕ) (p : Bytes) (w w' : Ram) (fd : ℕ)
    → open_file (write_append m) p w ≡ (returned fd, w')
    → (writing w'.handle ≡ some p)
      × (find p w'.files ≡ some (or_nil (find p w.files)))
      × (w'.signals ≤ w.signals)
unfolding open_file
ram_open_append m p w w' fd e =
    ground (arith, same_iff p p, find-put p p (or_nil (find p w.files)) w.files)

pub ram_open_read :
    (p : Bytes) (w w' : Ram) (fd : ℕ)
    → open_file read_only p w ≡ (returned fd, w')
    → (w'.handle ≡ some (p, 0)) × (find p w'.files ≡ find p w.files) × (w'.signals ≤ w.signals)
unfolding open_file
ram_open_read p w w' fd e = ground arith

pub ram_stat :
    (p c : Bytes) (k fd : ℕ) (st : Stat) (w w' : Ram)
    → w.handle ≡ some (p, k)
    → find p w.files ≡ some c
    → stat_file fd w ≡ (returned st, w')
    → (w'.handle ≡ some (p, k))
      × (find p w'.files ≡ some c)
      × (st.size ≡ length c)
      × (w'.signals ≤ w.signals)
unfolding stat_file
ram_stat p c k fd st w w' rd co e = ground arith

pub ram_stat_failed :
    (p : Bytes) (fd : ℕ) (err : Errno) (w w' : Ram)
    → stat_file fd w ≡ (failed err, w')
    → find p w'.files ≡ find p w.files
unfolding stat_file
ram_stat_failed p fd err w w' e = ground arith

pub ram_read_failed :
    (p c : Bytes) (k fd n : ℕ) (err : Errno) (w w' : Ram)
    → w.handle ≡ some (p, k)
    → find p w.files ≡ some c
    → read_bytes fd n w ≡ (failed err, w')
    → (w'.handle ≡ some (p, k))
      × (find p w'.files ≡ some c)
      × (err ≡ eintr → w'.signals < w.signals)
unfolding read_bytes
ram_read_failed p c k fd n err w w' rd co e = ground arith

pub ram_sync :
    (p : Bytes) (fd : ℕ) (u : Unit {0}) (w w' : Ram)
    → ram.sync fd w ≡ (returned u, w')
    → find p w'.files ≡ find p w.files
ram_sync p fd u w w' e = ground arith

pub ram_sync_failed :
    (p : Bytes) (fd : ℕ) (err : Errno) (w w' : Ram)
    → ram.sync fd w ≡ (failed err, w')
    → (find p w'.files ≡ find p w.files) × (err ≢ zero_errno)
ram_sync_failed p fd err w w' e = ground arith

abbrev pub ram_laws : Laws ram
ram_laws = record {
  contents = λ w p. find p w.files;
  writing = λ w fd. writing w.handle;
  reading = λ w fd. w.handle;
  interrupts = λ w. w.signals;
  open_truncate = ram_open_truncate;
  open_append = ram_open_append;
  open_read = ram_open_read;
  open_failed = ram_open_failed;
  write_returned = ram_write;
  write_failed = ram_write_failed;
  sync_returned = ram_sync;
  sync_failed = ram_sync_failed;
  close_keeps = λ p fd w. refl;
  stat_returned = ram_stat;
  stat_failed = ram_stat_failed;
  read_returned = ram_read;
  read_failed = ram_read_failed;
}
