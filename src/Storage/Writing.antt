-- ===== src/Storage/Writing.antt =====
-- Storage::write_file and append_file of src/storage.cc, and the file that they leave.
use diarkis.Base.{
  ℕ, ◌+◌, ◌≤◌, ◌<◌, [], ◌++◌, ◌≡◌, refl, ◌⊎◌, inl, inr, Option, none, some, true, false, Bytes,
  length, take_of_le, append-nil, arith,
}
use diarkis.Base.Table.{find}
use diarkis.Error.{VoidResult, void_ok, result_ok}
use diarkis.Path.{validate_path, resolve_path}
use diarkis.Locker.{LockTable, unlock_write}
use diarkis.Locker.Laws.{free_write}
use diarkis.Posix.{Posix, returned, OpenMode, write_truncate, write_append}
use diarkis.Posix.Laws.{Laws, or_nil, Outcome-cases}
use diarkis.Storage.Monad.{
  Storage, Run, ends, blocks, spins, Action, pure, perform, with_write, with_descriptor, and_then,
}
use diarkis.Storage.Scope.{errno_result, validated, file_mode}
use diarkis.Storage.Files.{
  write_loop, finish, write_all, write_file_at, write_file, append_file_at, append_file,
}
use diarkis.Storage.WriteLoop.{Partly, LoopWrote, write_loop-LoopWrote, errno_result-fails}

module _ {W : Type 0} (os : Posix W) (laws : Laws os) where
  open laws use {contents, writing, interrupts}

  -- The write succeeded and the file holds `c` and the buffer; or an error was reported, and the file
  -- holds `c` and a beginning of the buffer, or what it held in `before`.
  abbrev pub Written : Bytes → W → Bytes → Bytes → Run (VoidResult × Storage W) → Type 0
  Written p before c buffer (ends (r, s)) =
      ((result_ok r ≡ true) × (contents s.world p ≡ some (c ++ buffer)))
      ⊎ (Partly os laws p c buffer s.world r
          ⊎ ((result_ok r ≡ false) × (contents s.world p ≡ contents before p)))
  Written p before c buffer blocks = ⊥
  Written p before c buffer spins = ⊥

  void_ok-ok : result_ok void_ok ≡ true
  unfolding result_ok
  void_ok-ok = refl

  finish-Written :
      (fd : ℕ) (p c buffer : Bytes) (before : W) (s : Storage W)
      → contents s.world p ≡ some (c ++ buffer)
      → Written p before c buffer (finish os none fd s)
  finish-Written fd p c buffer before s co = elim (Outcome-cases (os.sync fd s.world)) [
    | inl (u, w, e) ↦ ground (arith, void_ok-ok, laws.sync_returned p fd u s.world w e)
    | inr (err, w, e) ↦
        let law = laws.sync_failed p fd err s.world w e in
        let stop : finish os none fd s ≡ ends (errno_result os err, record s { world = w }) =
          ground arith in
        rw stop (
          inr (
            inl (
              length buffer,
              ground (arith, law, take_of_le (length buffer) buffer),
              errno_result-fails os laws err law.1,
            )))
  ]

  write_all-Written :
      (fuel fd : ℕ) (p c buffer : Bytes) (before : W) (s : Storage W)
      → writing s.world fd ≡ some p
      → contents s.world p ≡ some c
      → length buffer + interrupts s.world < fuel
      → Written p before c buffer (write_all os fuel fd buffer s)
  unfolding write_all
  write_all-Written fuel fd p c buffer before s wr co lt = go (write_loop os fuel fd buffer 0 s) (
      write_loop-LoopWrote os laws fuel fd 0 p c buffer s wr (rw append-nil co) (omega arith)
        (omega arith))
    where
      go :
          (r : Run (Option VoidResult × Storage W))
          → LoopWrote os laws p c buffer r
          → Written p before c buffer (and_then r λ early s'. finish os early fd s')
      go (ends (none, s')) h = finish-Written fd p c buffer before s' h
      go (ends (some r, s')) h = inr (inl h)
      go blocks h = h
      go spins h = h

  closed-Written :
      (fd : ℕ) (p c buffer : Bytes) (before : W) (r : Run (VoidResult × Storage W))
      → Written p before c buffer r
      → Written p before c buffer
          (and_then r λ a s'. ends (a, record s' { world = os.close_file fd s'.world }))
  closed-Written fd p c buffer before (ends (a, s')) h = rw (laws.close_keeps p fd s'.world) h
  closed-Written fd p c buffer before blocks h = h
  closed-Written fd p c buffer before spins h = h

  -- The body of write_file and append_file, opening the file in the mode `m`.
  abbrev write_opened : OpenMode → ℕ → Bytes → Bytes → Action W VoidResult
  write_opened m fuel buffer p =
      perform (os.open_file m p) (λ fd. with_descriptor os fd (write_all os fuel fd buffer))
        (λ err. pure (errno_result os err))

  write_opened-Written :
      (m : OpenMode) (fuel : ℕ) (buffer p c : Bytes) (s : Storage W)
      → ((fd : ℕ) (w : W)
          → os.open_file m p s.world ≡ (returned fd, w)
          → (writing w fd ≡ some p) × (contents w p ≡ some c) × (interrupts w ≤ interrupts s.world))
      → length buffer + interrupts s.world < fuel
      → Written p s.world c buffer (write_opened m fuel buffer p s)
  write_opened-Written m fuel buffer p c s law lt =
      elim (Outcome-cases (os.open_file m p s.world)) [
        | inl (fd, w, e) ↦
            let facts = law fd w e in
            let run : write_opened m fuel buffer p s
                ≡ with_descriptor os fd (write_all os fuel fd buffer) (record s { world = w }) =
              ground arith in
            rw run (
              closed-Written fd p c buffer s.world _ (
                write_all-Written fuel fd p c buffer s.world (record s { world = w }) facts.0
                  facts.1 (omega (arith, facts.2))))
        | inr (err, w, e) ↦
            let law = laws.open_failed m p s.world w err e in
            let run : write_opened m fuel buffer p s
                ≡ ends (errno_result os err, record s { world = w }) =
              ground arith in
            rw run (inr (inr (errno_result-fails os laws err law.1, law.0)))
      ]

  abbrev unlocked : Bytes → Run (VoidResult × Storage W) → Run (VoidResult × Storage W)
  unlocked path (ends (a, s')) =
      ends (a, record s' { file_locker = unlock_write path s'.file_locker })
  unlocked path blocks = blocks
  unlocked path spins = spins

  unlocked-Written :
      (path p c buffer : Bytes) (before : W) (r : Run (VoidResult × Storage W))
      → Written p before c buffer r
      → Written p before c buffer (unlocked path r)
  unlocked-Written path p c buffer before (ends (a, s')) h = h
  unlocked-Written path p c buffer before blocks h = h
  unlocked-Written path p c buffer before spins h = h

  locked-Written :
      (path p c buffer : Bytes) (m : Action W VoidResult) (s : Storage W)
      → result_ok (validate_path path) ≡ true
      → find path s.file_locker ≡ none
      → ((t : LockTable) → Written p s.world c buffer (m (record s { file_locker = t })))
      → Written p s.world c buffer (validated path (with_write path m) s)
  locked-Written path p c buffer m s valid free h =
      let (t, taken, back) = free_write path s.file_locker free in
      let run : validated path (with_write path m) s
          ≡ unlocked path (m (record s { file_locker = t })) =
        ground arith in
      rw run (unlocked-Written path p c buffer s.world _ (h t))

  -- Over system calls that meet the laws, write_file on an accepted path that nobody locks, with
  -- fuel above the buffer's length and the interruptions to come, ends: it has reported success
  -- and the file holds exactly the buffer, or it has reported an error and the file holds a
  -- beginning of the buffer or what it held before.
  pub write_file-Written :
      (fuel : ℕ) (path buffer : Bytes) (s : Storage W)
      → result_ok (validate_path path) ≡ true
      → find path s.file_locker ≡ none
      → length buffer + interrupts s.world < fuel
      → Written (resolve_path s.base_path path) s.world [] buffer (write_file os fuel path buffer s)
  unfolding write_file write_file_at
  write_file-Written fuel path buffer s valid free lt =
      locked-Written path (resolve_path s.base_path path) [] buffer _ s valid free λ t.
        write_opened-Written (write_truncate file_mode) fuel buffer (resolve_path s.base_path path)
          [] (record s { file_locker = t })
          (λ fd w e. laws.open_truncate file_mode (resolve_path s.base_path path) s.world w fd e) lt

  -- Over system calls that meet the laws, append_file on an accepted path that nobody locks, with
  -- fuel above the buffer's length and the interruptions to come, ends: it has reported success
  -- and the file holds what it held, or nothing, followed by the buffer; or it has reported an
  -- error and the file holds that followed by a beginning of the buffer, or is as it was before.
  pub append_file-Written :
      (fuel : ℕ) (path buffer : Bytes) (s : Storage W)
      → result_ok (validate_path path) ≡ true
      → find path s.file_locker ≡ none
      → length buffer + interrupts s.world < fuel
      → let p = resolve_path s.base_path path in
        Written p s.world (or_nil (contents s.world p)) buffer (append_file os fuel path buffer s)
  unfolding append_file append_file_at
  append_file-Written fuel path buffer s valid free lt =
      let p = resolve_path s.base_path path in
      locked-Written path p (or_nil (contents s.world p)) buffer _ s valid free λ t.
        write_opened-Written (write_append file_mode) fuel buffer p (or_nil (contents s.world p))
          (record s { file_locker = t }) (λ fd w e. laws.open_append file_mode p s.world w fd e) lt
