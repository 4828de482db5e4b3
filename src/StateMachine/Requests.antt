-- ===== src/StateMachine/Requests.antt =====
-- StateMachine::apply_write_command and apply_read_command, which the RPC server calls, and what they
-- know of the leader.
use diarkis.Base.{
  ℕ, List, ◌++◌, Option, none, some, Bool, true, false, not, Bytes, text, map, length, ltb,
  if◌then◌else◌,
}
use diarkis.Error.{Result, value, failure, to_string}
use diarkis.Commands.{
  CommandType, Command, Response, no_response, refusal, what, Try, got, threw, Msgpack,
}
use diarkis.Posix.{Posix}
use diarkis.Storage.Monad.{Action, pure, ◌>>=◌}
use diarkis.Storage.Files.{read_file}
use diarkis.Storage.Entries.{FileInfo, list_directory}
use diarkis.StateMachine.Apply.{Status, status_ok, status_error, max_log_entry_size}

-- is_leader_, and what raft_node_->leader_id() says: the leader's text, if there is one.
pub record Leadership : Type 0 where
  pub is_leader : Bool
  pub leader_id : Option Bytes

-- StateMachine::on_leader_start and on_leader_stop
unfoldable pub on_leader_start : Leadership → Leadership
on_leader_start l = record l { is_leader = true }

unfoldable pub on_leader_stop : Leadership → Leadership
on_leader_stop l = record l { is_leader = false }

-- The response to the closure's status.
abbrev pub respond : Status → Response
respond status_ok = record no_response { success = true }
respond (status_error message) = refusal message

abbrev pub redirect : Option Bytes → Response
redirect none = refusal (text "No leader available")
redirect (some leader) = refusal (text "Not leader, redirect to: " ++ leader)

module _ {W : Type 0} (msgpack : Msgpack) (replicate : Bytes → Action W Status) where
  abbrev pub submit : Try Bytes → Action W Response
  submit (threw e) = pure (refusal (text "Exception: " ++ what e))
  submit (got sbuf) =
      if ltb max_log_entry_size (length sbuf)
      then pure (refusal (text "Command too large"))
      else do status ← replicate sbuf; pure (respond status)

  -- StateMachine::apply_write_command
  unfoldable pub apply_write_command : Leadership → Command → Action W Response
  apply_write_command l cmd =
      if not l.is_leader then pure (redirect l.leader_id) else submit (msgpack.pack_command cmd)

-- The two ends of handle_read_file and handle_list_directory.
abbrev pub file_response : Result Bytes → Response
file_response (value bytes) = record no_response { success = true; payload = bytes }
file_response (failure e) = refusal (to_string e)

abbrev pub directory_response : Result (List FileInfo) → Response
directory_response (value infos) = record no_response {
  success = true;
  entries = map (λ (info : FileInfo). info.name) infos;
}
directory_response (failure e) = refusal (to_string e)

module _ {W : Type 0} (os : Posix W) (fuel : ℕ) where
  unfoldable pub handle_read_file : Command → Action W Response
  handle_read_file cmd = do result ← read_file os fuel cmd.path; pure (file_response result)

  unfoldable pub handle_list_directory : Command → Action W Response
  handle_list_directory cmd = do
    result ← list_directory os fuel cmd.path
    pure (directory_response result)

  abbrev pub read_type : CommandType → Command → Action W Response
  read_type CommandType.read_file cmd = handle_read_file cmd
  read_type CommandType.list_dir cmd = handle_list_directory cmd
  read_type _ cmd = pure (refusal (text "Invalid read command type"))

  -- StateMachine::apply_read_command
  unfoldable pub apply_read_command : Command → Action W Response
  unfolding handle_read_file handle_list_directory
  apply_read_command cmd = read_type cmd.type cmd
