-- ===== src/StateMachine/Answers.antt =====
-- What StateMachine::apply_read_command answers to READ_FILE.
use diarkis.Base.{ℕ, ◌+◌, ◌≤◌, ◌<◌, ◌≡◌, some, none, true, Bytes, length, arith}
use diarkis.Base.Table.{find}
use diarkis.Error.{Result, value, failure, result_ok}
use diarkis.Path.{validate_path, resolve_path}
use diarkis.Commands.{CommandType, Command, Response}
use diarkis.Posix.{Posix}
use diarkis.Posix.Laws.{Laws}
use diarkis.Storage.Monad.{Storage, Run, ends, blocks, spins, pure, and_then}
use diarkis.Storage.Scope.{max_file_size}
use diarkis.Storage.Reading.{Read, read_file-Read}
use diarkis.Storage.Files.{read_file}
use diarkis.StateMachine.Requests.{file_response, handle_read_file, apply_read_command}

module _ {W : Type 0} (os : Posix W) (laws : Laws os) where
  open laws use {contents, interrupts}

  -- The run ends; the file still holds `c`, and a successful response carries `c`, within the limit.
  abbrev pub Answered : Bytes → Bytes → Run (Response × Storage W) → Type 0
  Answered p c (ends (response, s)) =
      (contents s.world p ≡ some c)
      × (response.success ≡ true → (response.payload ≡ c) × (length c ≤ max_file_size))
  Answered p c blocks = ⊥
  Answered p c spins = ⊥

  Answered-Read :
      (p c : Bytes) (r : Run (Result Bytes × Storage W))
      → Read os laws p c r
      → Answered p c (and_then r λ result. pure (file_response result))
  Answered-Read p c (ends (value d, s)) (same, small, held) = (held, λ _. (same, small))
  Answered-Read p c (ends (failure e, s)) held = (held, λ ok. ground arith)
  Answered-Read p c blocks h = h
  Answered-Read p c spins h = h

  -- Over system calls that meet the laws, a request to read an accepted path that nobody locks,
  -- where the file holds `c`, with enough fuel, is answered; the file is as it was, and a
  -- successful answer carries exactly `c`, which is then within the limit of 100 MB.
  pub apply_read_command-Answered :
      (fuel : ℕ) (cmd : Command) (c : Bytes) (s : Storage W)
      → cmd.type ≡ CommandType.read_file
      → result_ok (validate_path cmd.path) ≡ true
      → find cmd.path s.file_locker ≡ none
      → contents s.world (resolve_path s.base_path cmd.path) ≡ some c
      → length c + interrupts s.world < fuel
      → Answered (resolve_path s.base_path cmd.path) c (apply_read_command os fuel cmd s)
  unfolding apply_read_command handle_read_file
  apply_read_command-Answered fuel cmd c s reads valid free held enough = rw reads (
      Answered-Read (resolve_path s.base_path cmd.path) c (read_file os fuel cmd.path s)
        (read_file-Read os laws fuel cmd.path c s valid free held enough))
