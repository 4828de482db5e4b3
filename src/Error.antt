-- ===== src/Error.antt =====
-- src/include/diarkis/error.h, src/include/diarkis/result.h and src/error.cc: error codes, errors,
-- and the two result classes. An errno value is a symbol of <cerrno>, or another number.
pub mod Laws
use diarkis.Base.{ℕ, List, [], ◌∷◌, Bool, true, false, Bytes, text, is_empty, if◌then◌else◌}

pub data ErrorCode : Type 0 where
  success not_leader no_leader_available file_not_found directory_not_found : ErrorCode
  invalid_path already_exists not_directory io_error serialization_error : ErrorCode
  invalid_command network_error timeout unknown : ErrorCode

pub record Error : Type 0 where
  pub code : ErrorCode
  pub message : Bytes

-- Error()
abbrev pub no_error : Error
no_error = record { code = success; message = [] }

abbrev pub is_success : ErrorCode → Bool
is_success success = true
is_success _ = false

-- Error::ok
unfoldable pub error_ok : Error → Bool
error_ok e = is_success e.code

-- The texts of Error::to_string for an error with no message.
unfoldable pub code_text : ErrorCode → Bytes
code_text success = text "Success"
code_text not_leader = text "Not leader"
code_text no_leader_available = text "No leader available"
code_text file_not_found = text "File not found"
code_text directory_not_found = text "Directory not found"
code_text invalid_path = text "Invalid path"
code_text already_exists = text "Already exists"
code_text not_directory = text "Not a directory"
code_text io_error = text "I/O error"
code_text serialization_error = text "Serialization error"
code_text invalid_command = text "Invalid command"
code_text network_error = text "Network error"
code_text timeout = text "Timeout"
code_text unknown = text "Unknown error"

-- Error::to_string
unfoldable pub to_string : Error → Bytes
to_string e = if is_empty e.message then code_text e.code else e.message

pub data Errno : Type 0 where
  zero_errno enoent eexist enotdir eintr eagain ewouldblock einval : Errno
  other : ℕ → Errno

-- Error::from_errno; std::strerror is a parameter.
unfoldable pub from_errno : (Errno → Bytes) → Errno → Error
from_errno strerror zero_errno = no_error
from_errno strerror enoent = record { code = file_not_found; message = strerror enoent }
from_errno strerror eexist = record { code = already_exists; message = strerror eexist }
from_errno strerror enotdir = record { code = not_directory; message = strerror enotdir }
from_errno strerror err = record { code = io_error; message = strerror err }

-- Result<void> holds an error, with the code Success for none.
pub record VoidResult : Type 0 where
  pub error : Error

abbrev pub void_ok : VoidResult
void_ok = record { error = no_error }

abbrev pub fail : Error → VoidResult
fail e = record { error = e }

unfoldable pub result_ok : VoidResult → Bool
unfolding error_ok
result_ok r = error_ok r.error

-- Result<T> is a variant of a value and an error.
pub data Result {ℓ} (A : Type ℓ) : Type ℓ where
  value : A → Result A
  failure : Error → Result A

unfoldable pub has_value {ℓ} : {A : Type ℓ} → Result A → Bool
has_value (value a) = true
has_value (failure e) = false
