-- ===== src/Posix/Laws.antt =====
-- What src/storage.cc relies on of the calls on regular files, as POSIX documents them. `contents` is
-- the file at a path; `writing` the path whose end a descriptor's writes extend; `reading` the path and
-- offset that a descriptor reads at; `interrupts` bounds the calls that signals may still interrupt.
use diarkis.Base.{
  refl, ◌⊎◌, inl, inr, ℕ, ◌+◌, ◌≤◌, ◌<◌, ◌≡◌, ◌≢◌, [], ◌++◌, Option, none, some, Bytes, length,
  take, drop,
}
use diarkis.Error.{Errno, zero_errno, eintr}
use diarkis.Posix.{
  Posix, Outcome, returned, failed, OpenMode, write_truncate, write_append, read_only, Stat,
}

-- The bytes of a file, or none of a file that is not there.
abbrev pub or_nil : Option Bytes → Bytes
or_nil none = []
or_nil (some c) = c

pub record Laws {W : Type 0} (os : Posix W) : Type 0 where
  pub contents : W → Bytes → Option Bytes
  pub writing : W → ℕ → Option Bytes
  pub reading : W → ℕ → Option (Bytes × ℕ)
  pub interrupts : W → ℕ
  pub open_truncate :
      (mode : ℕ) (p : Bytes) (w w' : W) (fd : ℕ)
      → os.open_file (write_truncate mode) p w ≡ (returned fd, w')
      → (writing w' fd ≡ some p) × (contents w' p ≡ some []) × (interrupts w' ≤ interrupts w)
  pub open_append :
      (mode : ℕ) (p : Bytes) (w w' : W) (fd : ℕ)
      → os.open_file (write_append mode) p w ≡ (returned fd, w')
      → (writing w' fd ≡ some p)
        × (contents w' p ≡ some (or_nil (contents w p)))
        × (interrupts w' ≤ interrupts w)
  pub open_read :
      (p : Bytes) (w w' : W) (fd : ℕ)
      → os.open_file read_only p w ≡ (returned fd, w')
      → (reading w' fd ≡ some (p, 0))
        × (contents w' p ≡ contents w p)
        × (interrupts w' ≤ interrupts w)
  pub open_failed :
      (m : OpenMode) (p : Bytes) (w w' : W) (e : Errno)
      → os.open_file m p w ≡ (failed e, w')
      → (contents w' p ≡ contents w p) × (e ≢ zero_errno)
  pub write_returned :
      (p c b : Bytes) (fd n : ℕ) (w w' : W)
      → writing w fd ≡ some p
      → contents w p ≡ some c
      → os.write_bytes fd b w ≡ (returned n, w')
      → (writing w' fd ≡ some p)
        × (contents w' p ≡ some (c ++ take n b))
        × (n ≤ length b)
        × (0 < length b → 0 < n)
        × (interrupts w' ≤ interrupts w)
  pub write_failed :
      (p c b : Bytes) (fd : ℕ) (e : Errno) (w w' : W)
      → writing w fd ≡ some p
      → contents w p ≡ some c
      → os.write_bytes fd b w ≡ (failed e, w')
      → (writing w' fd ≡ some p)
        × (contents w' p ≡ some c)
        × (e ≢ zero_errno)
        × (e ≡ eintr → interrupts w' < interrupts w)
  pub sync_returned :
      (p : Bytes) (fd : ℕ) (u : Unit {0}) (w w' : W)
      → os.sync fd w ≡ (returned u, w')
      → contents w' p ≡ contents w p
  pub sync_failed :
      (p : Bytes) (fd : ℕ) (e : Errno) (w w' : W)
      → os.sync fd w ≡ (failed e, w')
      → (contents w' p ≡ contents w p) × (e ≢ zero_errno)
  pub close_keeps : (p : Bytes) (fd : ℕ) (w : W) → contents (os.close_file fd w) p ≡ contents w p
  pub stat_returned :
      (p c : Bytes) (k fd : ℕ) (st : Stat) (w w' : W)
      → reading w fd ≡ some (p, k)
      → contents w p ≡ some c
      → os.stat_file fd w ≡ (returned st, w')
      → (reading w' fd ≡ some (p, k))
        × (contents w' p ≡ some c)
        × (st.size ≡ length c)
        × (interrupts w' ≤ interrupts w)
  pub stat_failed :
      (p : Bytes) (fd : ℕ) (e : Errno) (w w' : W)
      → os.stat_file fd w ≡ (failed e, w')
      → contents w' p ≡ contents w p
  pub read_returned :
      (p c b : Bytes) (k fd n : ℕ) (w w' : W)
      → reading w fd ≡ some (p, k)
      → contents w p ≡ some c
      → os.read_bytes fd n w ≡ (returned b, w')
      → (reading w' fd ≡ some (p, k + length b))
        × (contents w' p ≡ some c)
        × (b ≡ take (length b) (drop k c))
        × (0 < n → k < length c → 0 < length b)
        × (interrupts w' ≤ interrupts w)
  pub read_failed :
      (p c : Bytes) (k fd n : ℕ) (e : Errno) (w w' : W)
      → reading w fd ≡ some (p, k)
      → contents w p ≡ some c
      → os.read_bytes fd n w ≡ (failed e, w')
      → (reading w' fd ≡ some (p, k))
        × (contents w' p ≡ some c)
        × (e ≡ eintr → interrupts w' < interrupts w)

-- A call returns or fails.
pub Outcome-cases :
    {A W : Type 0} (x : Outcome A × W)
    → ((a : A) × (w : W) × (x ≡ (returned a, w))) ⊎ ((e : Errno) × (w : W) × (x ≡ (failed e, w)))
Outcome-cases (returned a, w) = inl (a, w, refl)
Outcome-cases (failed e, w) = inr (e, w, refl)
