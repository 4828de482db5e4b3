-- ===== src/Storage/Reading.antt =====
-- Storage::read_file of src/storage.cc, and what it returns.
use diarkis.Base.{
  ℕ, zero, suc, ◌+◌, ◌-◌, ◌≤◌, ◌<◌, [], ◌∷◌, ◌++◌, ◌≡◌, refl, ap, ◌∙◌, inl, inr, none, some, true,
  false, Bytes, text, is_empty, length, take, drop, length-append, length-drop, length-take,
  take-add, take_of_le, ltb, tests, if◌then◌else◌, arith, Bool-cases,
}
use mathlib.Core.Path.{ap₂}
use diarkis.Base.Table.{find}
use diarkis.Error.{Error, Result, value, failure, result_ok, io_error}
use diarkis.Path.{validate_path, resolve_path}
use diarkis.Locker.{unlock_read}
use diarkis.Locker.Laws.{free_read}
use diarkis.Posix.{Posix, Stat, read_only}
use diarkis.Posix.Laws.{Laws}
use diarkis.Storage.Monad.{Storage, Run, ends, blocks, spins, pure, with_descriptor, and_then}
use diarkis.Storage.Scope.{max_file_size}
use diarkis.Storage.Files.{read_loop, read_all, read_file_at, read_file}
use diarkis.Posix.Laws.{Outcome-cases}

is_empty_of_pos : (b : Bytes) → 0 < length b → is_empty b ≡ false
is_empty_of_pos [] h = elim h [ ]
is_empty_of_pos (x ∷ b) h = refl

is_empty_pos : (b : Bytes) → is_empty b ≡ false → 0 < length b
is_empty_pos [] h = cc
is_empty_pos (x ∷ b) h = omega arith

-- The error for a file above the limit.
abbrev too_large : Error
too_large = record { code = io_error; message = text "File too large" }

-- The next piece of `c` continues the beginning that was read.
longer :
    (got b c : Bytes)
    → got ≡ take (length got) c
    → b ≡ take (length b) (drop (length got) c)
    → got ++ b ≡ take (length (got ++ b)) c
longer got b c g h = rw length-append (ap₂ ◌++◌ g h ∙ take-add (length got) (length b) c)

module _ {W : Type 0} (os : Posix W) (laws : Laws os) where
  open laws use {contents, reading, interrupts}

  -- The file still holds `c`, and what was returned, if no error, is `c` and within the limit.
  abbrev pub Read : Bytes → Bytes → Run (Result Bytes × Storage W) → Type 0
  Read p c (ends (value d, s)) =
      (d ≡ c) × (length c ≤ max_file_size) × (contents s.world p ≡ some c)
  Read p c (ends (failure e, s)) = contents s.world p ≡ some c
  Read p c blocks = ⊥
  Read p c spins = ⊥

  read_loop-Read :
      (fuel fd : ℕ) (p c got : Bytes) (s : Storage W)
      → reading s.world fd ≡ some (p, length got)
      → contents s.world p ≡ some c
      → got ≡ take (length got) c
      → length got ≤ length c
      → length c ≤ max_file_size
      → (length c - length got) + interrupts s.world < fuel
      → Read p c (read_loop os fuel fd (length c) got s)
  unfolding read_loop
  read_loop-Read zero fd p c got s rd co same le max lt = absurd (omega arith)
  read_loop-Read (suc fuel) fd p c got s rd co same le max lt =
      elim (Bool-cases (ltb (length got) (length c))) [
        | inr done ↦ ground (arith, take_of_le (length got) c)
        | inl more ↦ elim (Outcome-cases (os.read_bytes fd (length c - length got) s.world)) [
          | inl (b, w, e) ↦
              let law =
                laws.read_returned p c b (length got) fd (length c - length got) s.world w rd co
                  e in
              let bytes : length (got ++ b) ≡ length got + length b = length-append got b in
              let within : length got + length b ≤ length c = omega (
                arith,
                ap length law.2,
                length-take (length b) (drop (length got) c),
                length-drop (length got) c,
              ) in
              let some_bytes : is_empty b ≡ false =
                is_empty_of_pos b (law.3 (omega tests) (omega tests)) in
              let run : read_loop os (suc fuel) fd (length c) got s
                  ≡ read_loop os fuel fd (length c) (got ++ b) (record s { world = w }) =
                ground arith in
              rw run (
                read_loop-Read fuel fd p c (got ++ b) (record s { world = w }) (rw bytes law.0)
                  law.1 (longer got b c same law.2) (omega arith) max
                  (omega (arith, law.4, bytes, is_empty_pos b some_bytes)))
          | inr (err, w, e) ↦
              let law =
                laws.read_failed p c (length got) fd (length c - length got) err s.world w rd co
                  e in
              ground (arith, law, read_loop-Read fuel fd p c got (record s { world = w }))
        ]
      ]

  sized-Read :
      (fuel fd : ℕ) (p c : Bytes) (st : Stat) (s : Storage W)
      → reading s.world fd ≡ some (p, 0)
      → contents s.world p ≡ some c
      → st.size ≡ length c
      → length c + interrupts s.world < fuel
      → Read p c (
          (if ltb max_file_size st.size
              then pure (failure too_large)
              else read_loop os fuel fd st.size [])
            s)
  sized-Read fuel fd p c st s rd co size lt = elim (Bool-cases (ltb max_file_size (length c))) [
    | inl large ↦ rw (size, large) co
    | inr small ↦
        rw (size, small)
          (read_loop-Read fuel fd p c [] s rd co refl (omega arith) (ground arith) (omega arith))
  ]

  read_all-Read :
      (fuel fd : ℕ) (p c : Bytes) (s : Storage W)
      → reading s.world fd ≡ some (p, 0)
      → contents s.world p ≡ some c
      → length c + interrupts s.world < fuel
      → Read p c (read_all os fuel fd s)
  unfolding read_all
  read_all-Read fuel fd p c s rd co lt = elim (Outcome-cases (os.stat_file fd s.world)) [
    | inl (st, w, e) ↦
        let law = laws.stat_returned p c 0 fd st s.world w rd co e in
        let run : read_all os fuel fd s
            ≡ (if ltb max_file_size st.size
                  then pure (failure too_large)
                  else read_loop os fuel fd st.size [])
                (record s { world = w }) =
          ground arith in
        rw run (
          sized-Read fuel fd p c st (record s { world = w }) law.0 law.1 law.2
            (omega (arith, law.3)))
    | inr (err, w, e) ↦ ground (arith, laws.stat_failed p fd err s.world w e)
  ]

  closed-Read :
      (fd : ℕ) (p c : Bytes) (r : Run (Result Bytes × Storage W))
      → Read p c r
      → Read p c (and_then r λ a s'. ends (a, record s' { world = os.close_file fd s'.world }))
  closed-Read fd p c (ends (value d, s')) h = (h.0, h.1, rw (laws.close_keeps p fd s'.world) h.2)
  closed-Read fd p c (ends (failure e, s')) h = rw (laws.close_keeps p fd s'.world) h
  closed-Read fd p c blocks h = h
  closed-Read fd p c spins h = h

  read_file_at-Read :
      (fuel : ℕ) (p c : Bytes) (s : Storage W)
      → contents s.world p ≡ some c
      → length c + interrupts s.world < fuel
      → Read p c (read_file_at os fuel p s)
  unfolding read_file_at
  read_file_at-Read fuel p c s co lt = elim (Outcome-cases (os.open_file read_only p s.world)) [
    | inl (fd, w, e) ↦
        let law = laws.open_read p s.world w fd e in
        let run : read_file_at os fuel p s
            ≡ with_descriptor os fd (read_all os fuel fd) (record s { world = w }) =
          ground arith in
        rw run (
          closed-Read fd p c _ (
            read_all-Read fuel fd p c (record s { world = w }) law.0 (law.1 ∙ co)
              (omega (arith, law.2))))
    | inr (err, w, e) ↦ ground (arith, laws.open_failed read_only p s.world w err e)
  ]

  abbrev unlocked : Bytes → Run (Result Bytes × Storage W) → Run (Result Bytes × Storage W)
  unlocked path (ends (a, s')) =
      ends (a, record s' { file_locker = unlock_read path s'.file_locker })
  unlocked path blocks = blocks
  unlocked path spins = spins

  unlocked-Read :
      (path p c : Bytes) (r : Run (Result Bytes × Storage W))
      → Read p c r
      → Read p c (unlocked path r)
  unlocked-Read path p c (ends (value d, s')) h = h
  unlocked-Read path p c (ends (failure e, s')) h = h
  unlocked-Read path p c blocks h = h
  unlocked-Read path p c spins h = h

  -- Over system calls that meet the laws, read_file on an accepted path that nobody locks, where
  -- the file holds `c`, with fuel above the length of `c` and the interruptions to come, ends and
  -- leaves the file as it is; a value that it returns is all of `c`, which is then within the
  -- limit of 100 MB.
  pub read_file-Read :
      (fuel : ℕ) (path c : Bytes) (s : Storage W)
      → result_ok (validate_path path) ≡ true
      → find path s.file_locker ≡ none
      → contents s.world (resolve_path s.base_path path) ≡ some c
      → length c + interrupts s.world < fuel
      → Read (resolve_path s.base_path path) c (read_file os fuel path s)
  unfolding read_file
  read_file-Read fuel path c s valid free co lt =
      let p = resolve_path s.base_path path in
      let (t, taken, back) = free_read path s.file_locker free in
      let run : read_file os fuel path s
          ≡ unlocked path (read_file_at os fuel p (record s { file_locker = t })) =
        ground arith in
      rw run
        (unlocked-Read path p c _ (read_file_at-Read fuel p c (record s { file_locker = t }) co lt))
