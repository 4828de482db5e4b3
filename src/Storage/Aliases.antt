-- ===== src/Storage/Aliases.antt =====
-- What the locks of class Storage are worth for two spellings of one path.
use diarkis.Base.{ℕ, ◌+◌, ◌<◌, ◌≡◌, ◌≢◌, none, true, [], ◌∷◌, Bytes, length, same_iff, arith}
use diarkis.Base.Int.{pos}
use diarkis.Base.Table.{find, put}
use diarkis.Error.{result_ok}
use diarkis.Path.{validate_path, resolve_path}
use diarkis.Path.Names.{names}
use diarkis.Path.Resolve.{resolve_path-eq_iff}
use diarkis.Locker.{LockTable, acquired, lock_write}
use diarkis.Posix.{Posix}
use diarkis.Posix.Laws.{Laws}
use diarkis.Storage.Monad.{Storage, blocks}
use diarkis.Storage.Files.{write_file}
use diarkis.Storage.Writing.{Written, write_file-Written}

-- The table behind lock_write on an empty one.
locked_alone :
    (p : Bytes) (t : LockTable)
    → lock_write p [] ≡ acquired t
    → t ≡ (p, record { reader_count = pos 0; write_locked = true }) ∷ []
unfolding lock_write find put
locked_alone p t e = ground arith

module _ {W : Type 0} (os : Posix W) (laws : Laws os) where
  open laws use {interrupts}

  -- Over system calls that meet the laws, while one thread alone has locked an accepted path for
  -- writing, write_file of that path waits, and write_file of another accepted path with the same
  -- names does not: with fuel above the buffer's length and the interruptions to come it ends,
  -- with exactly the buffer in the file of the locked path, or with an error and a beginning of
  -- the buffer in it, or what it held before.
  pub write_file-alias :
      (fuel : ℕ) (p q buffer : Bytes) (s : Storage W)
      → p ≢ q
      → names p ≡ names q
      → result_ok (validate_path p) ≡ true
      → result_ok (validate_path q) ≡ true
      → lock_write p [] ≡ acquired s.file_locker
      → length buffer + interrupts s.world < fuel
      → (write_file os fuel p buffer s ≡ blocks)
        × Written os laws
            (resolve_path s.base_path p)
            s.world
            []
            buffer
            (write_file os fuel q buffer s)
  unfolding write_file lock_write find
  write_file-alias fuel p q buffer s differ alike valid valid' held lt =
      let table = locked_alone p s.file_locker held in
      let one_file : resolve_path s.base_path p ≡ resolve_path s.base_path q =
        (resolve_path-eq_iff s.base_path p q).1 alike in
      let free : find q s.file_locker ≡ none = ground (arith, table, same_iff p q) in
      (
        ground (arith, valid, table, same_iff p p),
        rw one_file (write_file-Written os laws fuel q buffer s valid' free lt),
      )
