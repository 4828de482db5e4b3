-- ===== src/StateMachine/Apply.antt =====
-- StateMachine::on_apply and apply_command of src/state_machine.cc.
use diarkis.Base.{ℕ, ◌*◌, List, [], ◌∷◌, Bool, Bytes, text, length, ltb, if◌then◌else◌}
use diarkis.Error.{VoidResult, result_ok, to_string}
use diarkis.Commands.{
  CommandType, Command, unpack_error, type_error, other_exception, Try, got, threw, Msgpack,
}
use diarkis.Posix.{Posix}
use diarkis.Storage.Monad.{Action, pure, ◌>>=◌}
use diarkis.Storage.Files.{create_file, write_file, append_file}
use diarkis.Storage.Entries.{create_directory, rename, delete_file, delete_directory}

abbrev pub max_log_entry_size : ℕ
max_log_entry_size = 100 * 1024 * 1024

-- The status of a closure: OK, or EINVAL with a text.
pub data Status : Type 0 where
  status_ok : Status
  status_error : Bytes → Status

-- A committed entry, and whether this node has a RaftClosure that waits for it.
pub record Entry : Type 0 where
  pub bytes : Bytes
  pub has_done : Bool

-- if (done) done->status().set_error(EINVAL, message)
abbrev pub set_error : Bool → Bytes → Status
set_error done message = if done then status_error message else status_ok

-- The end of apply_command, after the switch.
unfoldable pub settle : Bool → VoidResult → Status
unfolding result_ok to_string
settle done result =
    if done
    then (if result_ok result then status_ok else status_error (to_string result.error))
    else status_ok

module _ {W : Type 0} (os : Posix W) (fuel : ℕ) where
  -- The storage's method for a command that changes files; `none` of the others is called.
  abbrev pub settled : Bool → Action W VoidResult → Action W Status
  settled done m = do result ← m; pure (settle done result)

  -- The switch of apply_command.
  abbrev pub apply_type : CommandType → Command → Bool → Action W Status
  apply_type CommandType.create_file cmd done = settled done (create_file os cmd.path)
  apply_type CommandType.write_file cmd done =
      settled done (write_file os fuel cmd.path cmd.contents)
  apply_type CommandType.append_file cmd done =
      settled done (append_file os fuel cmd.path cmd.contents)
  apply_type CommandType.delete_file cmd done = settled done (delete_file os cmd.path)
  apply_type CommandType.create_dir cmd done = settled done (create_directory os cmd.path)
  apply_type CommandType.delete_dir cmd done = settled done (delete_directory os cmd.path)
  apply_type CommandType.rename cmd done = settled done (rename os cmd.path cmd.new_path)
  apply_type CommandType.read_file cmd done = pure status_ok
  apply_type CommandType.list_dir cmd done = pure status_ok
  apply_type (CommandType.other n) cmd done = pure (set_error done (text "Unknown command type"))

  unfoldable pub apply_command : Command → Bool → Action W Status
  apply_command cmd done = apply_type cmd.type cmd done

  module _ (msgpack : Msgpack) where
    -- The handlers of on_apply for what the decoding throws, and the command otherwise.
    abbrev pub apply_decoded : Try Command → Bool → Action W Status
    apply_decoded (got cmd) done = apply_command cmd done
    apply_decoded (threw (unpack_error w)) done =
        pure (set_error done (text "Deserialization error"))
    apply_decoded (threw (type_error w)) done = pure (set_error done (text "Type conversion error"))
    apply_decoded (threw (other_exception w)) done = pure (set_error done w)

    -- One round of the loop of on_apply: the status that the entry's closure is run with.
    unfoldable pub apply_entry : Entry → Action W Status
    apply_entry entry =
        if ltb max_log_entry_size (length entry.bytes)
        then pure (set_error entry.has_done (text "Log entry too large"))
        else apply_decoded (msgpack.unpack_command entry.bytes) entry.has_done

    unfoldable pub on_apply : List Entry → Action W (List Status)
    on_apply [] = pure []
    on_apply (entry ∷ entries) = do
      status ← apply_entry entry
      statuses ← on_apply entries
      pure (status ∷ statuses)
