-- ===== src/Storage/Scope.antt =====
-- What the methods of class Storage share: the constants of src/storage.cc, the check of the path in
-- front of each body, and the resolved path.
use diarkis.Base.{ℕ, ◌*◌, Bool, true, false, not, Bytes, if◌then◌else◌}
use diarkis.Error.{
  Errno, eexist, enoent, eintr, VoidResult, fail, from_errno, result_ok, Result, failure,
}
use diarkis.Path.{validate_path, resolve_path}
use diarkis.Posix.{Posix}
use diarkis.Storage.Monad.{Action, pure}

abbrev pub max_file_size : ℕ
max_file_size = 100 * 1024 * 1024

abbrev pub file_mode : ℕ
file_mode = 0o644

abbrev pub dir_mode : ℕ
dir_mode = 0o755

abbrev pub is_eexist : Errno → Bool
is_eexist eexist = true
is_eexist _ = false

abbrev pub is_enoent : Errno → Bool
is_enoent enoent = true
is_enoent _ = false

abbrev pub is_eintr : Errno → Bool
is_eintr eintr = true
is_eintr _ = false

module _ {W : Type 0} where
  -- Error::from_errno(err)
  abbrev pub errno_result : Posix W → Errno → VoidResult
  errno_result os err = fail (from_errno os.strerror err)

  -- full_path = resolve_path(path), with this storage's base_path_, in front of a body.
  abbrev pub resolving : {A : Type 0} → Bytes → (Bytes → Action W A) → Action W A
  resolving path body s = body (resolve_path s.base_path path) s

  -- A body behind `validate_path(path)`.
  abbrev pub validated : Bytes → Action W VoidResult → Action W VoidResult
  validated path body =
      let validation = validate_path path in
      if not (result_ok validation) then pure validation else body

  abbrev pub validated_value : {A : Type 0} → Bytes → Action W (Result A) → Action W (Result A)
  validated_value path body =
      let validation = validate_path path in
      if not (result_ok validation) then pure (failure validation.error) else body
