-- ===== src/Storage/Files.antt =====
-- Storage::create_file, read_file, write_file and append_file of src/storage.cc. Loops take fuel, a
-- bound on their rounds.
use diarkis.Base.{
  ℕ, zero, suc, ◌+◌, ◌-◌, [], ◌++◌, Option, none, some, Bytes, text, is_empty, length, drop, ltb,
  if◌then◌else◌,
}
use diarkis.Error.{from_errno, VoidResult, void_ok, Result, value, failure, io_error}
use diarkis.Posix.{Posix, create_exclusive, write_truncate, write_append, read_only}
use diarkis.Storage.Monad.{
  Action, out_of_fuel, pure, perform, with_read, with_write, with_descriptor, ◌>>=◌,
}
use diarkis.Storage.Scope.{
  max_file_size, file_mode, is_eexist, is_eintr, errno_result, resolving, validated,
  validated_value,
}

module _ {W : Type 0} (os : Posix W) where
  open os use {strerror, open_file, stat_file, read_bytes, write_bytes, sync}

  -- Storage::create_file, and its body at the resolved path.
  unfoldable pub create_file_at : Bytes → Action W VoidResult
  create_file_at full_path =
      perform (open_file (create_exclusive file_mode) full_path)
        (λ fd. with_descriptor os fd (pure void_ok))
        (λ err. if is_eexist err then pure void_ok else pure (errno_result os err))

  unfoldable pub create_file : Bytes → Action W VoidResult
  create_file path = validated path (with_write path (resolving path create_file_at))

  -- The loop of read_file, after the bytes `got` of a file of `size` bytes.
  unfoldable pub read_loop : ℕ → ℕ → ℕ → Bytes → Action W (Result Bytes)
  read_loop zero fd size got = out_of_fuel
  read_loop (suc fuel) fd size got =
      let round =
        perform (read_bytes fd (size - length got))
          (λ bytes.
            let rest = read_loop fuel fd size (got ++ bytes) in
            if is_empty bytes then pure (value got) else rest)
          (λ err.
            let again = read_loop fuel fd size got in
            if is_eintr err then again else pure (failure (from_errno strerror err))) in
      if ltb (length got) size then round else pure (value got)

  -- The body of read_file behind its locks and checks.
  unfoldable pub read_all : ℕ → ℕ → Action W (Result Bytes)
  unfolding read_loop
  read_all fuel fd =
      perform (stat_file fd)
        (λ st.
          if ltb max_file_size st.size
          then pure (failure (record { code = io_error; message = text "File too large" }))
          else read_loop fuel fd st.size [])
        (λ err. pure (failure (from_errno strerror err)))

  -- Storage::read_file, and its body at the resolved path.
  unfoldable pub read_file_at : ℕ → Bytes → Action W (Result Bytes)
  read_file_at fuel full_path =
      perform (open_file read_only full_path) (λ fd. with_descriptor os fd (read_all fuel fd))
        (λ err. pure (failure (from_errno strerror err)))

  unfoldable pub read_file : ℕ → Bytes → Action W (Result Bytes)
  read_file fuel path = validated_value path (with_read path (resolving path (read_file_at fuel)))

  -- The loop of write_file and append_file after `total` bytes; `some` is a return from inside it.
  unfoldable pub write_loop : ℕ → ℕ → Bytes → ℕ → Action W (Option VoidResult)
  write_loop zero fd buffer total = out_of_fuel
  write_loop (suc fuel) fd buffer total =
      let round =
        perform (write_bytes fd (drop total buffer)) (λ n. write_loop fuel fd buffer (total + n))
          (λ err.
            let again = write_loop fuel fd buffer total in
            if is_eintr err then again else pure (some (errno_result os err))) in
      if ltb total (length buffer) then round else pure none

  -- The fsync behind the loop.
  abbrev pub finish : Option VoidResult → ℕ → Action W VoidResult
  finish (some r) fd = pure r
  finish none fd = perform (sync fd) (λ _. pure void_ok) (λ err. pure (errno_result os err))

  unfoldable pub write_all : ℕ → ℕ → Bytes → Action W VoidResult
  unfolding write_loop
  write_all fuel fd buffer = do early ← write_loop fuel fd buffer 0; finish early fd

  -- Storage::write_file, and its body at the resolved path.
  unfoldable pub write_file_at : ℕ → Bytes → Bytes → Action W VoidResult
  write_file_at fuel buffer full_path =
      perform (open_file (write_truncate file_mode) full_path)
        (λ fd. with_descriptor os fd (write_all fuel fd buffer)) (λ err. pure (errno_result os err))

  unfoldable pub write_file : ℕ → Bytes → Bytes → Action W VoidResult
  write_file fuel path buffer =
      validated path (with_write path (resolving path (write_file_at fuel buffer)))

  -- Storage::append_file, and its body at the resolved path.
  unfoldable pub append_file_at : ℕ → Bytes → Bytes → Action W VoidResult
  append_file_at fuel buffer full_path =
      perform (open_file (write_append file_mode) full_path)
        (λ fd. with_descriptor os fd (write_all fuel fd buffer)) (λ err. pure (errno_result os err))

  unfoldable pub append_file : ℕ → Bytes → Bytes → Action W VoidResult
  append_file fuel path buffer =
      validated path (with_write path (resolving path (append_file_at fuel buffer)))
