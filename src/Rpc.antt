-- ===== src/Rpc.antt =====
-- RpcServer of src/include/diarkis/rpc.h and src/rpc.cc: one connection's requests, decoded, dispatched to
-- the state machine and answered.
pub mod Serving
pub mod Ending
mod Examples
use diarkis.Base.{
  ℕ, zero, suc, Option, none, some, Bool, true, false, Bytes, text, ◌++◌, if◌then◌else◌,
}
use diarkis.Commands.{
  CommandType, Command, Response, refusal, unpack_error, type_error, other_exception, Try, got,
  threw, Msgpack,
}
use diarkis.Storage.Monad.{Storage, Run, ends, blocks, spins, Action, pure}
use diarkis.Tcp.{Sockets, Link, Talk, replied}
use diarkis.Protocol.{receive_message, send_message}

-- The two calls of the state machine.
pub record Handlers (W : Type 0) : Type 0 where
  pub apply_write_command : Command → Action W Response
  pub apply_read_command : Command → Action W Response

-- A connection, and the server's storage behind the state machine.
pub record Session (N : Type 0) (W : Type 0) : Type 0 where
  pub link : Link N
  pub storage : Storage W

module _ {W : Type 0} (handlers : Handlers W) where
  open handlers use {apply_write_command, apply_read_command}

  abbrev pub dispatch_type : CommandType → Command → Action W Response
  dispatch_type CommandType.write_file cmd = apply_write_command cmd
  dispatch_type CommandType.append_file cmd = apply_write_command cmd
  dispatch_type CommandType.create_file cmd = apply_write_command cmd
  dispatch_type CommandType.create_dir cmd = apply_write_command cmd
  dispatch_type CommandType.delete_file cmd = apply_write_command cmd
  dispatch_type CommandType.delete_dir cmd = apply_write_command cmd
  dispatch_type CommandType.rename cmd = apply_write_command cmd
  dispatch_type CommandType.read_file cmd = apply_read_command cmd
  dispatch_type CommandType.list_dir cmd = apply_read_command cmd
  dispatch_type (CommandType.other n) cmd = pure (refusal (text "Unknown command type"))

  -- RpcServer::dispatch_command, with handle_write_command and handle_read_command
  unfoldable pub dispatch_command : Command → Action W Response
  dispatch_command cmd = dispatch_type cmd.type cmd

module _ {N : Type 0} (os : Sockets N) (fuel : ℕ) (msgpack : Msgpack) where
  -- RpcServer::send_response; a failure to pack is caught there.
  abbrev pub send_packed : Try Bytes → Talk N Bool
  send_packed (got response_data) = send_message os fuel response_data
  send_packed (threw e) = replied false

  unfoldable pub send_response : Response → Talk N Bool
  send_response response = send_packed (msgpack.pack_response response)

  -- RpcServer::send_error_response, and `return false` behind it
  unfoldable pub send_error_response : Bytes → Talk N Bool
  unfolding send_response
  send_error_response error l = refused (send_response (refusal error) l)
    where
      refused : Run (Bool × Link N) → Run (Bool × Link N)
      refused (ends (b, l')) = ends (false, l')
      refused blocks = blocks
      refused spins = spins

  module _ {W : Type 0} (handlers : Handlers W) where
    abbrev pub on_link : Run (Bool × Link N) → Storage W → Run (Bool × Session N W)
    on_link (ends (b, l)) s = ends (b, record { link = l; storage = s })
    on_link blocks s = blocks
    on_link spins s = spins

    abbrev pub answer : Run (Response × Storage W) → Link N → Run (Bool × Session N W)
    answer (ends (response, s)) l = on_link (send_response response l) s
    answer blocks l = blocks
    answer spins l = spins

    -- The try block of process_request and its handlers.
    abbrev pub serve : Try Command → Session N W → Run (Bool × Session N W)
    serve (got cmd) c = answer (dispatch_command handlers cmd c.storage) c.link
    serve (threw (unpack_error w)) c =
        on_link (send_error_response (text "Deserialization error") c.link) c.storage
    serve (threw (type_error w)) c =
        on_link (send_error_response (text "Type conversion error") c.link) c.storage
    serve (threw (other_exception w)) c =
        on_link (send_error_response (text "Processing error: " ++ w) c.link) c.storage

    abbrev pub serve_received : Run (Option Bytes × Link N) → Storage W → Run (Bool × Session N W)
    serve_received (ends (some request_data, l)) s =
        serve (msgpack.unpack_command request_data) (record { link = l; storage = s })
    serve_received (ends (none, l)) s = ends (false, record { link = l; storage = s })
    serve_received blocks s = blocks
    serve_received spins s = spins

    -- RpcServer::process_request
    unfoldable pub process_request : Session N W → Run (Bool × Session N W)
    process_request c = serve_received (receive_message os fuel c.link) c.storage

    -- The loop goes on behind a request that was processed, and stops behind another.
    abbrev pub and_again :
        Run (Bool × Session N W) → (Session N W → Run (Session N W)) → Run (Session N W)
    and_again (ends (true, c)) again = again c
    and_again (ends (false, c)) again = ends c
    and_again blocks again = blocks
    and_again spins again = spins

    -- RpcServer::handle_connection; its fuel counts the requests.
    unfoldable pub handle_connection : ℕ → Session N W → Run (Session N W)
    handle_connection zero c = spins
    handle_connection (suc requests) c =
        let rest = and_again (process_request c) (handle_connection requests) in
        if c.link.connected then rest else ends c
