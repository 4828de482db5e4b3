-- ===== src/Storage/WriteLoop.antt =====
-- The loop of Storage::write_file and append_file of src/storage.cc.
use diarkis.Base.{
  ℕ, zero, suc, ◌+◌, ◌-◌, ◌≤◌, ◌<◌, ◌++◌, ◌≡◌, ◌≢◌, inl, inr, Option, none, some, false, Bytes,
  length, take, drop, length-drop, take-add, take_of_le, ltb, append_assoc, arith, Bool-cases,
}
use diarkis.Error.{Errno, VoidResult, result_ok, zero_errno}
use diarkis.Error.Laws.{result_ok-from_errno}
use diarkis.Posix.{Posix}
use diarkis.Posix.Laws.{Laws, Outcome-cases}
use diarkis.Storage.Monad.{Storage, Run, ends, blocks, spins}
use diarkis.Storage.Scope.{is_eintr, errno_result}
use diarkis.Storage.Files.{write_loop}

module _ {W : Type 0} (os : Posix W) (laws : Laws os) where
  open laws use {contents, writing, interrupts}

  -- An error was reported, and the file holds `c` and a beginning of the buffer.
  abbrev pub Partly : Bytes → Bytes → Bytes → W → VoidResult → Type 0
  Partly p c buffer w r =
      (k : ℕ) × (contents w p ≡ some (c ++ take k buffer)) × (result_ok r ≡ false)

  abbrev pub LoopWrote : Bytes → Bytes → Bytes → Run (Option VoidResult × Storage W) → Type 0
  LoopWrote p c buffer (ends (none, s)) = contents s.world p ≡ some (c ++ buffer)
  LoopWrote p c buffer (ends (some r, s)) = Partly p c buffer s.world r
  LoopWrote p c buffer blocks = ⊥
  LoopWrote p c buffer spins = ⊥

  pub errno_result-fails : (e : Errno) → e ≢ zero_errno → result_ok (errno_result os e) ≡ false
  errno_result-fails e h = ground (arith, result_ok-from_errno os.strerror e)

  pub write_loop-LoopWrote :
      (fuel fd total : ℕ) (p c buffer : Bytes) (s : Storage W)
      → writing s.world fd ≡ some p
      → contents s.world p ≡ some (c ++ take total buffer)
      → total ≤ length buffer
      → (length buffer - total) + interrupts s.world < fuel
      → LoopWrote p c buffer (write_loop os fuel fd buffer total s)
  unfolding write_loop
  write_loop-LoopWrote zero fd total p c buffer s wr co le lt = absurd (omega arith)
  write_loop-LoopWrote (suc fuel) fd total p c buffer s wr co le lt =
      elim (Bool-cases (ltb total (length buffer))) [
        | inr done ↦ ground (arith, take_of_le total buffer)
        | inl more ↦ elim (Outcome-cases (os.write_bytes fd (drop total buffer) s.world)) [
          | inl (n, w, e) ↦
              let law =
                laws.write_returned p (c ++ take total buffer) (drop total buffer) fd n s.world w wr
                  co e in
              ground (
                arith,
                law,
                length-drop total buffer,
                take-add total n buffer,
                append_assoc c (take total buffer) (take n (drop total buffer)),
                write_loop-LoopWrote fuel fd (total + n) p c buffer (record s { world = w }),
              )
          | inr (err, w, e) ↦
              let law =
                laws.write_failed p (c ++ take total buffer) (drop total buffer) fd err s.world w wr
                  co e in
              elim (Bool-cases (is_eintr err)) [
                | inl again ↦ ground (
                  arith,
                  law,
                  write_loop-LoopWrote fuel fd total p c buffer (record s { world = w }),
                )
                | inr fatal ↦
                    let stop : write_loop os (suc fuel) fd buffer total s
                        ≡ ends (some (errno_result os err), record s { world = w }) =
                      ground arith in
                    rw stop (total, law.1, errno_result-fails err law.2)
              ]
        ]
      ]
