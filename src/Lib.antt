-- ===== src/Lib.antt =====
-- Verification of the Diarkis server, a replicated file system: a client sends a command over TCP, the
-- RPC server dispatches it to the state machine, which hands writes to Raft and applies the committed
-- log to the storage on every node, and answers reads from the local storage.
--
-- Base holds what the other modules share: the library's names, Boolean tests, lists over the native
-- numbers, strings as lists of bytes (Text), association lists (Table), lists of numbers as sets
-- (Members) and C++ int counters (Int).
--
-- Error: src/error.cc, src/include/diarkis/error.h and result.h; to_string, from_errno and the two
-- result classes keep their names. std::strerror is a parameter.
--
-- Path: the path functions of src/storage.cc: is_safe_path (with its loop `collect` over getlines),
-- normalize_path, resolve_path and validate_path. Path.Names is an independent reading of a path: its
-- names, and the walk along them. Path.Normal, Path.Safety and Path.Resolve hold the theorems.
--
-- Locker: FileLocker of src/storage.cc. The map locks_ is an association list; a round of a waiting loop
-- either acquires or waits. Locker.Threads interleaves threads that make and destroy guards;
-- Locker.Invariant relates the table to the live guards.
--
-- Posix: the system calls of src/storage.cc as an interface over a world `W`, its laws (Posix.Laws), and
-- a small system in memory that meets them (Posix.Ram, Posix.RamLaws). The laws cover regular files;
-- Storage.Listing has those of reading a directory (Posix.Shelf is a small instance), and the other
-- calls on directories have none.
--
-- Storage: class Storage of src/storage.cc. Storage.Monad has the state (base_path_, the lock table, the
-- world) and runs, which end, wait for a lock, or use up their fuel. Storage.Files and Storage.Entries
-- hold the methods; a method `m` is its checks and locks around `m_at`, the body at the resolved path.
-- The loops over ::read and ::write take fuel; more fuel than the bytes to move and the interrupted
-- calls together is enough, a round for each. The loop over ::readdir takes a bound on the entries.
-- Storage.Quiet and Storage.Locking track the locks; Storage.WriteLoop, Storage.Writing,
-- Storage.Reading, Storage.Listing, Storage.RoundTrip, Storage.Rename and Storage.Aliases hold the
-- theorems.
--
-- Commands: commands/diarkis/commands.h, and MessagePack as an interface with a round-trip law;
-- Commands.Codec is a small instance of it.
--
-- StateMachine: src/state_machine.cc. StateMachine.Apply has on_apply and apply_command, which return
-- the status that each entry's closure is run with; StateMachine.Requests has apply_write_command and
-- apply_read_command, StateMachine.Startup has init (init_state_machine here) and shutdown, over braft,
-- brpc and butil as an interface (StateMachine.Releasing.Laws; StateMachine.Local is a small instance).
-- In requests Raft is a parameter `replicate`: it hands an entry to the log and returns the closure's
-- status, and StateMachine.Leader says what is relied on. StateMachine.Replay and StateMachine.Progress
-- are about logs, StateMachine.Durable about acknowledged writes, StateMachine.Answers about reads.
--
-- Config: src/config.cc, src/include/diarkis/config.h and load_configuration of src/main.cc. yaml-cpp is
-- an interface. The command line flags are given as they were parsed.
--
-- Tcp: TcpConnection of src/tcp.cc over the socket calls, with laws of a stream (Tcp.Laws) and a small
-- network that meets them (Tcp.Pipe). Protocol: MessageProtocol of src/rpc.cc. Rpc: the requests of one
-- connection of RpcServer, over the two calls of the state machine. Fuel counts bytes and interrupted
-- calls, and in handle_connection the requests; with fuel above the limit on messages and the
-- interrupted calls a message is sent or received whatever comes, and the bytes to come bound the
-- requests.
--
-- TcpServer: class TcpServer of src/tcp.cc. start and the calls on the listening socket are functions;
-- TcpServer.Steps interleaves the thread that calls start and stop, the one in accept_loop and those in
-- handle_connection, in steps between the points that Server's fields record, and says which steps a
-- thread is sure to make, and which wait for a peer or another thread. A handler's calls on its connection
-- are one point; as one of them may hold socket_mutex_, close in cleanup_connections is sure to get it only
-- behind the handler. TcpServer.Running is about a stop of a server that was just started. RpcServer::start
-- and stop are calls of TcpServer.
--
-- Client: client/cpp/src. Client.Connection has its TcpConnection, Client.Rpc its RpcClient and
-- Client.Files the calls of Client. Client.Streams and Client.Frames compare its stream with the
-- server's, Client.Answers and Client.InStep are about send_command, Client.Dialing about connecting,
-- and Client.Remote, Client.Durable and Client.Fetching join a client and a server on the two ends of a stream.
--
-- Main: src/main.cc from main to its return. The signals that arrive in each tick of the wait loop are
-- an argument. The RPC server's start is that of TcpServer; the server that its threads have come to
-- when stop has returned is an argument too, which has to be one that TcpServer.Steps leads to.
--
-- Not modelled: braft, brpc, yaml-cpp, gflags, spdlog and MessagePack themselves; log messages; the
-- snapshot and the log-only callbacks of the state machine, which change no state; the example program,
-- which prints what the client's calls return. A method of TcpConnection runs from its start to its end,
-- so there its mutex is left out; TcpServer.Steps has the close in another thread, which may wait for it.
-- Threads are interleaved in the models of the lock table and of the TCP server; elsewhere a method runs
-- from its start to its end.
pub mod Base
pub mod Error
pub mod Path
pub mod Locker
pub mod Posix
pub mod Storage
pub mod Commands
pub mod StateMachine
pub mod Config
pub mod Tcp
pub mod Protocol
pub mod Rpc
pub mod TcpServer
pub mod Client
pub mod Main
