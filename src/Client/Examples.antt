-- ===== src/Client/Examples.antt =====
-- A client that writes one byte to the leader of the sample, over two small networks.
use diarkis.Base.{same, ◌≡◌, refl, some, true, false, [], ◌∷◌, ◌++◌, Bytes, arith}
use diarkis.Base.Int.{pos}
use diarkis.Base.Table.{find, put, erase}
use diarkis.Error.{result_ok}
use diarkis.Path.{validate_path, resolve_path}
use diarkis.Locker.{lock_read, unlock_read, lock_write, unlock_write}
use diarkis.Commands.{Response, no_response, got}
use diarkis.Commands.Codec.{
  codec, codec_laws, write_known, read_known, pack_command, unpack_command, pack_response,
  unpack_response,
}
use diarkis.Posix.Ram.{Ram, ram, open_file, write_bytes, read_bytes, stat_file}
use diarkis.Posix.RamLaws.{ram_laws}
use diarkis.Storage.Monad.{Storage, ends}
use diarkis.Storage.Files.{write_file_at, write_all}
use diarkis.Storage.Files
use diarkis.StateMachine.Apply.{settle, apply_command, apply_entry}
use diarkis.StateMachine.Requests.{apply_write_command, apply_read_command, handle_read_file}
use diarkis.StateMachine.Sample.{
  a, b, b_a, fresh, written, replicate, commits, a_valid, leader, write_request, harmless, enough,
}
use diarkis.Tcp.{Link}
use diarkis.Tcp
use diarkis.Tcp.Pipe
use diarkis.Tcp.Pipe.{Pipe, pipe, pipe_laws}
use diarkis.Protocol
use diarkis.Protocol.{htonl, ntohl, receive_length}
use diarkis.Protocol.Frames.{frame}
use diarkis.Rpc.{Session, dispatch_command, process_request, send_response}
use diarkis.Client.Connection.{Dialer, send, receive_exact}
use diarkis.Client.Rpc.{RpcClient, is_connected, send_command, send_message, receive_message}
use diarkis.Client.Files.{read_file, write_file}
use diarkis.Client.Answers.{Answered}
use diarkis.Client.InStep.{InStep, send_command-InStep}
use diarkis.Client.Remote.{send_command-dispatch_command}
use diarkis.Client.Fetching.{Fetched, read_file-Fetched}
use diarkis.Client.Durable.{state_machine, write_file-contents}

abbrev dialer : Dialer Pipe
dialer = record {
  sockets = pipe;
  open_socket = λ w. (some 3, w);
  set_options = λ fd w. w;
  is_address = λ address. true;
  connect_socket = λ fd address port w. (true, w);
}

-- The request packs to 0, 7; the response that all went well packs to 1.
abbrev request : Bytes
request = 0 ∷ 7 ∷ []

abbrev reply : Bytes
reply = 1 ∷ []

abbrev all_well : Response
all_well = record no_response { success = true }

abbrev near : Pipe
near = record { outgoing = []; incoming = frame reply; chunk = 1; signals = 1; broken = false }

abbrev client : RpcClient Pipe
client = record { address = []; port = 7; conn = some (some 3); network = near }

abbrev client_link : Link Pipe
client_link = record { socket_fd = some 3; connected = true; network = near }

abbrev session : Session Pipe Ram
session = record {
  link = record {
    socket_fd = some 4;
    connected = true;
    network = record {
      outgoing = 9 ∷ [];
      incoming = frame request ++ [];
      chunk = 1;
      signals = 1;
      broken = false;
    };
  };
  storage = fresh;
}

-- The client and the session behind the request.
abbrev client_after : RpcClient Pipe
client_after = record client {
  network = record {
    outgoing = frame request;
    incoming = [];
    chunk = 1;
    signals = 0;
    broken = false;
  };
}

abbrev session_after : Session Pipe Ram
session_after = record {
  link = record {
    socket_fd = some 4;
    connected = true;
    network = record {
      outgoing = 9 ∷ [] ++ frame reply;
      incoming = [];
      chunk = 1;
      signals = 0;
      broken = false;
    };
  };
  storage = written;
}

packed : codec.pack_command (write_known (7 ∷ [])) ≡ got request
unfolding pack_command same
packed = refl

packed' : codec.pack_response all_well ≡ got reply
unfolding pack_response
packed' = refl

unpacked : codec.unpack_response reply ≡ got all_well
unfolding unpack_response
unpacked = refl

served :
    process_request pipe 20 codec (state_machine ram 20 codec replicate leader) session
    ≡ ends (true, session_after)
unfolding process_request Protocol.receive_message receive_length Tcp.receive_exact
    Pipe.receive_bytes Pipe.send_bytes htonl ntohl dispatch_command send_response
    Protocol.send_message Tcp.send apply_write_command apply_entry apply_command settle
    Files.write_file write_file_at write_all validate_path resolve_path result_ok lock_write
    unlock_write find put erase open_file write_bytes unpack_command pack_command pack_response
served = refl

dispatched :
    dispatch_command (state_machine ram 20 codec replicate leader) (write_known (7 ∷ [])) fresh
    ≡ ends (all_well, written)
unfolding dispatch_command
dispatched = write_request

returned_zero : write_file dialer 20 codec a (7 ∷ []) client ≡ ends (pos 0, client_after)
unfolding write_file send_command is_connected send_message receive_message send receive_exact htonl
    ntohl Pipe.receive_bytes Pipe.send_bytes pack_command unpack_response same
returned_zero = refl

send_command-InStep_example :
    InStep dialer pipe_laws 200000000 codec near 3
      (send_command dialer 200000000 codec (write_known (7 ∷ [])) client)
send_command-InStep_example =
    send_command-InStep dialer pipe_laws 200000000 codec 3 (write_known (7 ∷ [])) request client
      refl packed (omega arith) (omega arith)

send_command-dispatch_command_example :
    Answered dialer pipe_laws 20 codec 3 [] request all_well []
      (send_command dialer 20 codec (write_known (7 ∷ [])) client)
    × (session_after.storage ≡ written)
send_command-dispatch_command_example =
    send_command-dispatch_command dialer pipe_laws pipe pipe_laws 20 codec codec_laws
      (state_machine ram 20 codec replicate leader) 3 4 (write_known (7 ∷ [])) request reply []
      all_well client session session_after written refl refl refl packed refl served refl
      dispatched packed' (omega arith) (omega arith) (omega arith) (omega arith) (omega arith)
      (omega arith) (omega arith) (omega arith)

write_file-contents_example : find (resolve_path b a) written.world.files ≡ some (7 ∷ [])
write_file-contents_example =
    write_file-contents dialer pipe_laws pipe pipe_laws 20 codec codec_laws ram ram_laws replicate
      commits 3 4 a (7 ∷ []) request reply [] all_well client client_after leader session
      session_after written returned_zero refl refl refl packed refl served refl write_request
      packed' (omega arith) (omega arith) (omega arith) (omega arith) (omega arith) (omega arith)
      (omega arith) (omega arith) a_valid refl harmless enough

-- A client that reads the byte again, and the server's session for it.
abbrev reader : RpcClient Pipe
reader = record client { network = record near { incoming = frame (1 ∷ 7 ∷ []) } }

abbrev read_session : Session Pipe Ram
read_session = record {
  link = record session.link {
    network = record session.link.network { incoming = frame (2 ∷ []) ++ [] };
  };
  storage = written;
}

abbrev read_back : Storage Ram
read_back = record written { world = record written.world { handle = some (b_a, 1) } }

abbrev read_session_after : Session Pipe Ram
read_session_after = record {
  link = record session_after.link {
    network = record session_after.link.network { outgoing = 9 ∷ [] ++ frame (1 ∷ 7 ∷ []) };
  };
  storage = read_back;
}

abbrev seven : Response
seven = record no_response { success = true; payload = 7 ∷ [] }

read_packed : codec.pack_command read_known ≡ got (2 ∷ [])
unfolding pack_command same
read_packed = refl

seven_packed : codec.pack_response seven ≡ got (1 ∷ 7 ∷ [])
unfolding pack_response
seven_packed = refl

read_answered : apply_read_command ram 20 read_known written ≡ ends (seven, read_back)
unfolding apply_read_command handle_read_file Files.read_file result_ok validate_path lock_read find
    Files.read_file_at open_file resolve_path Files.read_all stat_file read_bytes unlock_read put
    erase
read_answered = refl

read_served :
    process_request pipe 20 codec (state_machine ram 20 codec replicate leader) read_session
    ≡ ends (true, read_session_after)
unfolding process_request Protocol.receive_message receive_length Tcp.receive_exact
    Pipe.receive_bytes Pipe.send_bytes htonl ntohl dispatch_command send_response
    Protocol.send_message Tcp.send apply_read_command handle_read_file Files.read_file result_ok
    validate_path lock_read find Files.read_file_at open_file resolve_path Files.read_all stat_file
    read_bytes unlock_read put erase unpack_command pack_response
read_served = refl

read_file-Fetched_example :
    Fetched (7 ∷ []) (0 ∷ 0 ∷ []) (read_file dialer 20 codec a (0 ∷ 0 ∷ []) reader)
unfolding find resolve_path dispatch_command
read_file-Fetched_example =
    read_file-Fetched dialer pipe_laws pipe pipe_laws 20 codec codec_laws ram ram_laws replicate 3 4
      a (0 ∷ 0 ∷ []) (7 ∷ []) (2 ∷ []) (1 ∷ 7 ∷ []) [] seven reader leader read_session
      read_session_after read_back refl refl refl read_packed refl read_served refl read_answered
      seven_packed (omega arith) (omega arith) (omega arith) (omega arith) (omega arith)
      (omega arith) (omega arith) (omega arith) a_valid refl refl (omega arith)
