-- ===== src/Storage/Entries.antt =====
-- Storage::init, create_directory, rename, delete_file, delete_directory and list_directory of
-- src/storage.cc. The loop over a directory takes fuel, a bound on its entries.
use diarkis.Base.{
  ℕ, zero, suc, List, [], ◌∷◌, ◌++◌, Bool, false, not, ◌||◌, Bytes, text, same, if◌then◌else◌,
}
use diarkis.Error.{from_errno, VoidResult, void_ok, fail, Result, value, failure, not_directory}
use diarkis.Path.{dot, dot_dot, slash}
use diarkis.Posix.{Posix}
use diarkis.Storage.Monad.{
  Action, out_of_fuel, pure, perform, next_entry, change_world, with_write, ◌>>=◌, ◌>>◌,
}
use diarkis.Storage.Scope.{
  dir_mode, is_eexist, is_enoent, errno_result, resolving, validated, validated_value,
}

pub record FileInfo : Type 0 where
  pub name : Bytes
  pub is_directory : Bool
  pub size : ℕ

module _ {W : Type 0} (os : Posix W) where
  open os use {
    strerror, make_directory, remove_directory, remove_file, move, stat_path, open_directory,
    read_entry, close_directory,
  }

  -- Storage::init
  unfoldable pub init : Action W VoidResult
  init s =
      perform (stat_path s.base_path)
        (λ st.
          if not st.is_directory
          then pure (
              fail (record { code = not_directory; message = text "Base path is not a directory" }))
          else pure void_ok)
        (λ _.
          perform (make_directory dir_mode s.base_path) (λ _. pure void_ok)
            (λ err. pure (errno_result os err)))
        s

  -- Storage::create_directory, and its body at the resolved path.
  unfoldable pub create_directory_at : Bytes → Action W VoidResult
  create_directory_at full_path =
      perform (make_directory dir_mode full_path) (λ _. pure void_ok)
        (λ err. if is_eexist err then pure void_ok else pure (errno_result os err))

  unfoldable pub create_directory : Bytes → Action W VoidResult
  create_directory path = validated path (resolving path create_directory_at)

  -- Storage::rename, and its body at the resolved paths.
  unfoldable pub rename_at : Bytes → Bytes → Action W VoidResult
  rename_at full_old full_new =
      perform (move full_old full_new) (λ _. pure void_ok) (λ err. pure (errno_result os err))

  abbrev pub rename_locked : Bytes → Bytes → Action W VoidResult
  rename_locked old_path new_path =
      with_write new_path
        (resolving old_path λ full_old. resolving new_path λ full_new. rename_at full_old full_new)

  unfoldable pub rename : Bytes → Bytes → Action W VoidResult
  rename old_path new_path =
      validated old_path
        (validated new_path (with_write old_path (rename_locked old_path new_path)))

  -- Storage::delete_file, and its body at the resolved path.
  unfoldable pub delete_file_at : Bytes → Action W VoidResult
  delete_file_at full_path =
      perform (remove_file full_path) (λ _. pure void_ok)
        (λ err. if is_enoent err then pure void_ok else pure (errno_result os err))

  unfoldable pub delete_file : Bytes → Action W VoidResult
  delete_file path = validated path (with_write path (resolving path delete_file_at))

  -- Storage::delete_directory, and its body at the resolved path.
  unfoldable pub delete_directory_at : Bytes → Action W VoidResult
  delete_directory_at full_path =
      perform (remove_directory full_path) (λ _. pure void_ok)
        (λ err. if is_enoent err then pure void_ok else pure (errno_result os err))

  unfoldable pub delete_directory : Bytes → Action W VoidResult
  delete_directory path = validated path (resolving path delete_directory_at)

  -- The FileInfo of one entry.
  unfoldable pub entry_info : Bytes → Bytes → Action W FileInfo
  entry_info full_path name =
      perform (stat_path (full_path ++ slash ∷ name))
        (λ st. pure (record { name = name; is_directory = st.is_directory; size = st.size }))
        (λ _. pure (record { name = name; is_directory = false; size = 0 }))

  -- The loop of list_directory, after the entries `items`: readdir's end, an entry to skip, or one
  -- to keep.
  unfoldable pub list_loop : ℕ → ℕ → Bytes → List FileInfo → Action W (List FileInfo)
  unfolding entry_info
  list_loop zero dir full_path items = out_of_fuel
  list_loop (suc fuel) dir full_path items = next_entry (read_entry dir) (pure items) λ name.
      let skip = list_loop fuel dir full_path items in
      let keep = (do
        info ← entry_info full_path name
        list_loop fuel dir full_path (items ++ info ∷ [])) in
      if same name dot || same name dot_dot then skip else keep

  -- Storage::list_directory, and its body at the resolved path.
  unfoldable pub list_directory_at : ℕ → Bytes → Action W (Result (List FileInfo))
  list_directory_at fuel full_path =
      perform (open_directory full_path)
        (λ dir. do
          items ← list_loop fuel dir full_path []
          change_world (close_directory dir)
          pure (value items))
        (λ err. pure (failure (from_errno strerror err)))

  unfoldable pub list_directory : ℕ → Bytes → Action W (Result (List FileInfo))
  list_directory fuel path = validated_value path (resolving path (list_directory_at fuel))
