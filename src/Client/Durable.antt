-- ===== src/Client/Durable.antt =====
-- What Client::write_file leaves on the leader that answers it.
use diarkis.Base.{ℕ, ◌+◌, ◌≤◌, ◌<◌, ◌≡◌, some, true, [], Bytes, List, length, ◌++◌, arith, inl, inr}
use diarkis.Base.Int.{pos}
use diarkis.Error.{result_ok}
use diarkis.Path.{validate_path, resolve_path}
use diarkis.Posix.{Posix}
use diarkis.Posix.Laws.{Laws}
use diarkis.Storage.Monad.{Storage, Run, ends, blocks, spins, Action}
use diarkis.Commands.{Response, Msgpack, MsgpackLaws, got}
use diarkis.StateMachine.Apply.{Status, on_apply}
use diarkis.StateMachine.Requests.{Leadership, apply_write_command, apply_read_command}
use diarkis.StateMachine.Leader.{Commits}
use diarkis.StateMachine.Progress.{NoSelfRenames}
use diarkis.StateMachine.Durable.{write_command, apply_write_command-contents}
use diarkis.Tcp.{Sockets}
use diarkis.Tcp.Laws.{StreamLaws}
use diarkis.Protocol.{max_message_size}
use diarkis.Protocol.Frames.{frame}
use diarkis.Rpc.{Handlers, Session, dispatch_command, process_request}
use diarkis.Client.Connection.{Dialer}
use diarkis.Client.Rpc.{RpcClient, send_command}
use diarkis.Client.Files.{status_of, read_off, write_file}
use diarkis.Client.Answers.{Answered}
use diarkis.Client.Remote.{send_command-dispatch_command}

module _ {N : Type 0} (dialer : Dialer N) (laws : StreamLaws dialer.sockets) (fuel : ℕ)
    (msgpack : Msgpack) where
  -- An answered call that gives 0 has got a response of success.
  status-success :
      (fd : ℕ) (old request rest : Bytes) (response : Response) (c' : RpcClient N)
      (r : Run (Response × RpcClient N))
      → Answered dialer laws fuel msgpack fd old request response rest r
      → read_off status_of r ≡ ends (pos 0, c')
      → response.success ≡ true
  status-success fd old request rest response c' (ends (resp, c)) (inl h) e = ground (arith, h.0)
  status-success fd old request rest response c' (ends (resp, c)) (inr h) e = ground (arith, h.0)
  status-success fd old request rest response c' blocks h e = elim h [ ]
  status-success fd old request rest response c' spins h e = elim h [ ]

-- The calls of the state machine that the RPC server is given.
abbrev pub state_machine :
    {W : Type 0} → Posix W → ℕ → Msgpack → (Bytes → Action W Status) → Leadership → Handlers W
state_machine os fuel msgpack replicate l = record {
  apply_write_command = apply_write_command msgpack replicate l;
  apply_read_command = apply_read_command os fuel;
}

module _ {N M W : Type 0} (dialer : Dialer N) (near : StreamLaws dialer.sockets) (os : Sockets M)
    (far : StreamLaws os) (fuel : ℕ) (msgpack : Msgpack) (codec : MsgpackLaws msgpack)
    (posix : Posix W) (laws : Laws posix) (replicate : Bytes → Action W Status)
    (commits : Commits posix fuel msgpack replicate) where
  open commits use {earlier}
  open laws use {contents, interrupts}

  -- Between a client and a server as in the theorem on send_command and dispatch_command, the
  -- server's calls being those of the state machine over system calls that meet their laws and
  -- over a Raft that runs a closure either with the status of applying its entry behind earlier
  -- entries or with an error: when write_file of an accepted path returns 0, from an empty lock
  -- table, with no rename of a path to itself among the entries that Raft applies before, and with
  -- fuel for the write behind them, then the file of that path on the server holds exactly the
  -- client's buffer.
  pub write_file-contents :
      (fd fd' : ℕ) (path buffer request reply rest : Bytes) (response : Response)
      (c c' : RpcClient N) (l : Leadership) (session session' : Session M W) (s : Storage W)
      → write_file dialer fuel msgpack path buffer c ≡ ends (pos 0, c')
      → c.conn ≡ some (some fd)
      → session.link.socket_fd ≡ some fd'
      → session.link.connected ≡ true
      → msgpack.pack_command (write_command path buffer) ≡ got request
      → far.coming session.link.network fd' ≡ frame request ++ rest
      → process_request os fuel msgpack (state_machine posix fuel msgpack replicate l) session
        ≡ ends (true, session')
      → far.sent session'.link.network fd'
        ≡ far.sent session.link.network fd' ++ near.coming c.network fd
      → apply_write_command msgpack replicate l (write_command path buffer) session.storage
        ≡ ends (response, s)
      → msgpack.pack_response response ≡ got reply
      → 0 < length request
      → length request ≤ max_message_size
      → 0 < length reply
      → length reply ≤ max_message_size
      → 4 + length request + near.interrupts c.network < fuel
      → 4 + length reply + near.interrupts c.network < fuel
      → 4 + length request + far.interrupts session.link.network < fuel
      → 4 + length reply + far.interrupts session.link.network < fuel
      → result_ok (validate_path path) ≡ true
      → session.storage.file_locker ≡ []
      → ((b : Bytes) → NoSelfRenames msgpack (earlier b session.storage))
      → ((b : Bytes) (statuses : List Status) (t : Storage W)
          → on_apply posix fuel msgpack (earlier b session.storage) session.storage
            ≡ ends (statuses, t)
          → length buffer + interrupts t.world < fuel)
      → contents session'.storage.world (resolve_path session.storage.base_path path) ≡ some buffer
  unfolding write_file dispatch_command
  write_file-contents fd fd' path buffer request reply rest response c c' l session session' s zero
        conn_is fd_is up packed stream run linked done packed' some_bytes small some_bytes' small'
        lt lt' lt₂ lt₃ valid idle harmless enough =
      let (answered, stored) =
        send_command-dispatch_command dialer near os far fuel msgpack codec
          (state_machine posix fuel msgpack replicate l) fd fd' (write_command path buffer) request
          reply rest response c session session' s conn_is fd_is up packed stream run linked done
          packed' some_bytes small some_bytes' small' lt lt' lt₂ lt₃ in
      let ok =
        status-success dialer near fuel msgpack fd (near.sent c.network fd) request [] response c'
          (send_command dialer fuel msgpack (write_command path buffer) c) answered zero in
      rw stored (
        apply_write_command-contents posix fuel laws msgpack replicate codec commits l path buffer
          response session.storage s done ok valid idle harmless enough)
