-- ===== src/Error/Laws.antt =====
-- What an error says of itself: its code and its text.
use diarkis.Base.{[], ◌≡◌, ◌≢◌, ◌↔◌, ◌⊎◌, true, false, Bytes, text, arith, is_empty}
use diarkis.Error.{
  Error, ErrorCode, Errno, zero_errno, to_string, from_errno, fail, result_ok, code_text,
  file_not_found, already_exists, not_directory, io_error, enoent, eexist, enotdir,
}

-- An errno value turns into an error that counts as success exactly when it is 0.
pub result_ok-from_errno :
    (strerror : Errno → Bytes) (err : Errno)
    → (result_ok (fail (from_errno strerror err)) ≡ true) ↔ (err ≡ zero_errno)
unfolding result_ok from_errno
result_ok-from_errno strerror err = ground arith

-- For an errno value other than 0, from_errno gives File not found, Already exists and Not a
-- directory to ENOENT, EEXIST and ENOTDIR alone, and I/O error to every other value; the message
-- is strerror's.
pub from_errno_cases :
    (strerror : Errno → Bytes) (err : Errno)
    → err ≢ zero_errno
    → let e = from_errno strerror err in
      (e.message ≡ strerror err)
      × ((e.code ≡ file_not_found) ↔ (err ≡ enoent))
      × ((e.code ≡ already_exists) ↔ (err ≡ eexist))
      × ((e.code ≡ not_directory) ↔ (err ≡ enotdir))
      × ((e.code ≡ io_error) ⊎ ((err ≡ enoent) ⊎ ((err ≡ eexist) ⊎ (err ≡ enotdir))))
unfolding from_errno
from_errno_cases strerror err h = ground arith

text-code : (c : ErrorCode) → is_empty (code_text c) ≡ false
unfolding code_text text
text-code c = ground arith

-- No error prints as an empty text, whatever its code and message.
pub to_string-ne-nil : (e : Error) → to_string e ≢ []
unfolding to_string
to_string-ne-nil e h = ground (arith, text-code e.code)
