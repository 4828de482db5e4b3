-- ===== src/Storage/Locking.antt =====
-- How the methods of class Storage use the file locks, branch by branch.
use diarkis.Base.{ℕ, zero, suc, List, ◌≡◌, refl, Option, none, some, Bytes, Bool-cases, inl, inr}
use diarkis.Base.Table.{find}
use diarkis.Error.{VoidResult, Result, result_ok}
use diarkis.Path.{validate_path}
use diarkis.Posix.{Posix}
use diarkis.Storage.Monad.{Storage, Action}
use diarkis.Storage.Scope.{validated, validated_value}
use diarkis.Storage.Quiet.{
  Clean, Quiet, Quiet-resolving, quiet_rules, with_write-Clean, with_read-Clean,
}
use diarkis.Storage.Files.{
  create_file_at, create_file, read_loop, read_all, read_file_at, read_file, write_loop, finish,
  write_all, write_file_at, write_file, append_file_at, append_file,
}
use diarkis.Storage.Entries.{
  FileInfo, create_directory_at, create_directory, rename_at, delete_file_at, delete_file,
  delete_directory_at, delete_directory, entry_info, list_loop, list_directory_at, list_directory,
}

module _ {W : Type 0} where
  pub validated-Clean :
      (path : Bytes) (m : Action W VoidResult) (s : Storage W)
      → Clean s (m s)
      → Clean s (validated path m s)
  validated-Clean path m s c = elim (Bool-cases (result_ok (validate_path path))) [
    | inl e ↦ rw e c
    | inr e ↦ rw e (refl, refl)
  ]

  validated_value-Clean :
      {A : Type 0} (path : Bytes) (m : Action W (Result A)) (s : Storage W)
      → Clean s (m s)
      → Clean s (validated_value path m s)
  validated_value-Clean path m s c = elim (Bool-cases (result_ok (validate_path path))) [
    | inl e ↦ rw e c
    | inr e ↦ rw e (refl, refl)
  ]

module _ {W : Type 0} (os : Posix W) where
  read_loop-Quiet : (fuel fd size : ℕ) (got : Bytes) → Quiet (read_loop os fuel fd size got)
  unfolding read_loop
  read_loop-Quiet zero fd size got = search quiet_rules
  read_loop-Quiet (suc fuel) fd size got = search (quiet_rules, read_loop-Quiet fuel fd size)

  read_all-Quiet : (fuel fd : ℕ) → Quiet (read_all os fuel fd)
  unfolding read_all
  read_all-Quiet fuel fd = search (quiet_rules, read_loop-Quiet)

  write_loop-Quiet :
      (fuel fd : ℕ) (buffer : Bytes) (total : ℕ) → Quiet (write_loop os fuel fd buffer total)
  unfolding write_loop
  write_loop-Quiet zero fd buffer total = search quiet_rules
  write_loop-Quiet (suc fuel) fd buffer total =
      search (quiet_rules, write_loop-Quiet fuel fd buffer)

  finish-Quiet : (early : Option VoidResult) (fd : ℕ) → Quiet (finish os early fd)
  finish-Quiet none fd = search quiet_rules
  finish-Quiet (some r) fd = search quiet_rules

  write_all-Quiet : (fuel fd : ℕ) (buffer : Bytes) → Quiet (write_all os fuel fd buffer)
  unfolding write_all
  write_all-Quiet fuel fd buffer = search (quiet_rules, write_loop-Quiet, finish-Quiet)

  entry_info-Quiet : (full_path name : Bytes) → Quiet (entry_info os full_path name)
  unfolding entry_info
  entry_info-Quiet full_path name = search quiet_rules

  list_loop-Quiet :
      (fuel dir : ℕ) (full_path : Bytes) (items : List FileInfo)
      → Quiet (list_loop os fuel dir full_path items)
  unfolding list_loop
  list_loop-Quiet zero dir full_path items = search quiet_rules
  list_loop-Quiet (suc fuel) dir full_path items =
      search (quiet_rules, list_loop-Quiet fuel dir full_path, entry_info-Quiet)

  create_file_at-Quiet : (full_path : Bytes) → Quiet (create_file_at os full_path)
  unfolding create_file_at
  create_file_at-Quiet full_path = search quiet_rules

  read_file_at-Quiet : (fuel : ℕ) (full_path : Bytes) → Quiet (read_file_at os fuel full_path)
  unfolding read_file_at
  read_file_at-Quiet fuel full_path = search (quiet_rules, read_all-Quiet)

  write_file_at-Quiet :
      (fuel : ℕ) (buffer : Bytes) (full_path : Bytes)
      → Quiet (write_file_at os fuel buffer full_path)
  unfolding write_file_at
  write_file_at-Quiet fuel buffer full_path = search (quiet_rules, write_all-Quiet)

  append_file_at-Quiet :
      (fuel : ℕ) (buffer : Bytes) (full_path : Bytes)
      → Quiet (append_file_at os fuel buffer full_path)
  unfolding append_file_at
  append_file_at-Quiet fuel buffer full_path = search (quiet_rules, write_all-Quiet)

  create_directory_at-Quiet : (full_path : Bytes) → Quiet (create_directory_at os full_path)
  unfolding create_directory_at
  create_directory_at-Quiet full_path = search quiet_rules

  delete_file_at-Quiet : (full_path : Bytes) → Quiet (delete_file_at os full_path)
  unfolding delete_file_at
  delete_file_at-Quiet full_path = search quiet_rules

  delete_directory_at-Quiet : (full_path : Bytes) → Quiet (delete_directory_at os full_path)
  unfolding delete_directory_at
  delete_directory_at-Quiet full_path = search quiet_rules

  list_directory_at-Quiet :
      (fuel : ℕ) (full_path : Bytes) → Quiet (list_directory_at os fuel full_path)
  unfolding list_directory_at
  list_directory_at-Quiet fuel full_path = search (quiet_rules, list_loop-Quiet)

  pub rename_at-Quiet : (full_old full_new : Bytes) → Quiet (rename_at os full_old full_new)
  unfolding rename_at
  rename_at-Quiet full_old full_new = search quiet_rules

  module _ (path : Bytes) (s : Storage W) where
    pub create_file-Clean : find path s.file_locker ≡ none → Clean s (create_file os path s)
    unfolding create_file
    create_file-Clean free =
        validated-Clean path _ s
          (with_write-Clean path _ s (Quiet-resolving path _ create_file_at-Quiet) free)

    pub read_file-Clean :
        (fuel : ℕ) → find path s.file_locker ≡ none → Clean s (read_file os fuel path s)
    unfolding read_file
    read_file-Clean fuel free =
        validated_value-Clean path _ s
          (with_read-Clean path _ s (Quiet-resolving path _ (read_file_at-Quiet fuel)) free)

    pub write_file-Clean :
        (fuel : ℕ) (buffer : Bytes)
        → find path s.file_locker ≡ none
        → Clean s (write_file os fuel path buffer s)
    unfolding write_file
    write_file-Clean fuel buffer free =
        validated-Clean path _ s (
          with_write-Clean path _ s (Quiet-resolving path _ (write_file_at-Quiet fuel buffer)) free)

    pub append_file-Clean :
        (fuel : ℕ) (buffer : Bytes)
        → find path s.file_locker ≡ none
        → Clean s (append_file os fuel path buffer s)
    unfolding append_file
    append_file-Clean fuel buffer free =
        validated-Clean path _ s (
          with_write-Clean path _ s (Quiet-resolving path _ (append_file_at-Quiet fuel buffer))
            free)

    pub delete_file-Clean : find path s.file_locker ≡ none → Clean s (delete_file os path s)
    unfolding delete_file
    delete_file-Clean free =
        validated-Clean path _ s
          (with_write-Clean path _ s (Quiet-resolving path _ delete_file_at-Quiet) free)

    pub create_directory-Clean : Clean s (create_directory os path s)
    unfolding create_directory
    create_directory-Clean =
        validated-Clean path _ s ((Quiet-resolving path _ create_directory_at-Quiet).at s)

    pub delete_directory-Clean : Clean s (delete_directory os path s)
    unfolding delete_directory
    delete_directory-Clean =
        validated-Clean path _ s ((Quiet-resolving path _ delete_directory_at-Quiet).at s)

    pub list_directory-Clean : (fuel : ℕ) → Clean s (list_directory os fuel path s)
    unfolding list_directory
    list_directory-Clean fuel =
        validated_value-Clean path _ s
          ((Quiet-resolving path _ (list_directory_at-Quiet fuel)).at s)
