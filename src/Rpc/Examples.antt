-- ===== src/Rpc/Examples.antt =====
-- One request over the small network, to a server whose reads find one byte.
use diarkis.Base.{
  ℕ, ◌≡◌, refl, ◌∙◌, ap, none, some, true, false, [], ◌∷◌, ◌++◌, Bytes, arith, Bool-cases, inl, inr,
}
use diarkis.Base.Table.{find}
use diarkis.Error.{result_ok}
use diarkis.Path.{validate_path}
use diarkis.Locker.{LockState}
use diarkis.Locker.Laws.{free_read}
use diarkis.Storage.Files.{read_file}
use diarkis.Storage.Files
use diarkis.Storage.Entries.{list_directory}
use diarkis.Storage.Entries
use diarkis.StateMachine.Apply.{status_ok}
use diarkis.StateMachine.Local.{World, offline, local}
use diarkis.StateMachine.Requests.{
  apply_write_command, apply_read_command, read_type, handle_read_file, handle_list_directory,
}
use diarkis.Client.Durable.{state_machine}
use diarkis.Commands.{CommandType, Command, Response, no_response, got}
use diarkis.Commands.Codec.{codec, read_known, unpack_command, pack_response}
use diarkis.Storage.Monad.{Storage, Run, ends}
use diarkis.Tcp.Pipe.{Pipe, pipe, pipe_laws}
use diarkis.Protocol.{htonl}
use diarkis.Protocol.Frames.{frame}
use diarkis.Rpc.{Handlers, Session, dispatch_command, process_request, handle_connection}
use diarkis.Rpc.Ending.{Answering, Over, handle_connection-ends}
use diarkis.Rpc.Serving.{Served, process_request-Served}

abbrev one_byte : Response
one_byte = record no_response { success = true; payload = 5 ∷ [] }

-- Reads find one byte, and writes leave 1 in the world.
abbrev handlers : Handlers ℕ
handlers = record {
  apply_write_command = λ cmd s. ends (no_response, record s { world = 1 });
  apply_read_command = λ cmd s. ends (one_byte, s);
}

abbrev calm : Storage ℕ
calm = record { base_path = []; file_locker = []; world = 0 }

abbrev session : Session Pipe ℕ
session = record {
  link = record {
    socket_fd = some 4;
    connected = true;
    network = record {
      outgoing = [];
      incoming = frame (2 ∷ []) ++ [];
      chunk = 1;
      signals = 1;
      broken = false;
    };
  };
  storage = calm;
}

decoded : codec.unpack_command (2 ∷ []) ≡ got read_known
unfolding unpack_command
decoded = refl

dispatched : dispatch_command handlers read_known calm ≡ ends (one_byte, calm)
unfolding dispatch_command
dispatched = refl

packed : codec.pack_response one_byte ≡ got (1 ∷ 5 ∷ [])
unfolding pack_response
packed = refl

process_request-Served_example :
    Served pipe pipe_laws 20 codec handlers 4 [] calm calm
      (1 ∷ 5 ∷ [])
      (process_request pipe 20 codec handlers session)
process_request-Served_example =
    process_request-Served pipe pipe_laws 20 codec handlers 4 (2 ∷ []) (1 ∷ 5 ∷ []) [] read_known
      one_byte session calm refl refl refl (omega arith) (omega arith) (omega arith) (omega arith)
      (omega arith) decoded dispatched packed

-- A storage in which nobody holds a lock.
abbrev Unlocked : Storage World → Type 0
Unlocked s = s.file_locker ≡ []

-- The calls of a state machine that is not the leader, over a system without files.
abbrev follower : Handlers World
follower =
    state_machine local 9 codec (λ b s. ends (status_ok, s))
      (record { is_leader = false; leader_id = none })

abbrev RequestsEnd : Run (Response × Storage World) → Type 0
RequestsEnd r = Answering pipe pipe_laws 200000000 codec follower Unlocked r

write_ends :
    (cmd : Command) (s : Storage World)
    → Unlocked s
    → RequestsEnd (follower.apply_write_command cmd s)
unfolding apply_write_command
write_ends cmd s unlocked = unlocked

find-empty : (path : Bytes) → find {V = LockState} path [] ≡ none
unfolding find
find-empty path = refl

read_file_ends :
    (cmd : Command) (s : Storage World) → Unlocked s → RequestsEnd (handle_read_file local 9 cmd s)
unfolding handle_read_file read_file Files.read_file_at result_ok
read_file_ends cmd s unlocked =
    let (t, taken, back) =
      free_read cmd.path s.file_locker (ap (find cmd.path) unlocked ∙ find-empty cmd.path) in
    elim (Bool-cases (result_ok (validate_path cmd.path))) [
      | inl good ↦ ground (arith, unlocked)
      | inr bad ↦ ground (arith, unlocked)
    ]

list_directory_ends :
    (cmd : Command) (s : Storage World)
    → Unlocked s
    → RequestsEnd (handle_list_directory local 9 cmd s)
unfolding handle_list_directory list_directory Entries.list_directory_at result_ok
list_directory_ends cmd s unlocked = elim (Bool-cases (result_ok (validate_path cmd.path))) [
  | inl good ↦ ground (arith, unlocked)
  | inr bad ↦ ground (arith, unlocked)
]

read_ends :
    (cmd : Command) (s : Storage World)
    → Unlocked s
    → RequestsEnd (follower.apply_read_command cmd s)
unfolding apply_read_command
read_ends cmd s unlocked = go cmd.type
  where
    go : (t : CommandType) → RequestsEnd (read_type local 9 t cmd s)
    go CommandType.read_file = read_file_ends cmd s unlocked
    go CommandType.list_dir = list_directory_ends cmd s unlocked
    go CommandType.write_file = unlocked
    go CommandType.append_file = unlocked
    go CommandType.create_file = unlocked
    go CommandType.create_dir = unlocked
    go CommandType.delete_file = unlocked
    go CommandType.delete_dir = unlocked
    go CommandType.rename = unlocked
    go (CommandType.other n) = unlocked

abbrev follower_session : Session Pipe World
follower_session = record {
  link = session.link;
  storage = record { base_path = []; file_locker = []; world = offline [] };
}

handle_connection-ends_example :
    Over pipe pipe_laws 200000000 codec follower Unlocked
      (handle_connection pipe 200000000 codec follower 6 follower_session)
unfolding htonl
handle_connection-ends_example =
    handle_connection-ends pipe pipe_laws 200000000 codec follower Unlocked write_ends read_ends 6 4
      follower_session refl (omega arith) (omega arith) refl
