-- ===== src/Client/Remote.antt =====
-- A client and a server on the two ends of one stream.
use diarkis.Base.{ℕ, ◌+◌, ◌≤◌, ◌<◌, ◌≡◌, sym, ◌∙◌, some, true, [], Bytes, length, ◌++◌, append-nil}
use mathlib.Core.Path.{subst}
use mathlib.Core.List.{append_cancel_left}
use diarkis.Storage.Monad.{Storage, ends}
use diarkis.Commands.{Command, Response, Msgpack, MsgpackLaws, got}
use diarkis.Tcp.{Sockets}
use diarkis.Tcp.Laws.{StreamLaws}
use diarkis.Protocol.{max_message_size}
use diarkis.Protocol.Frames.{frame}
use diarkis.Rpc.{Handlers, Session, dispatch_command, process_request}
use diarkis.Rpc.Serving.{Served, process_request-Served}
use diarkis.Client.Connection.{Dialer}
use diarkis.Client.Rpc.{RpcClient, send_command}
use diarkis.Client.Answers.{Answered, send_command-Answered}

module _ {N M W : Type 0} (dialer : Dialer N) (near : StreamLaws dialer.sockets) (os : Sockets M)
    (far : StreamLaws os) (fuel : ℕ) (msgpack : Msgpack) (codec : MsgpackLaws msgpack)
    (handlers : Handlers W) where
  -- Between a client and a server with open connections of streams that meet the laws, with enough
  -- fuel and a MessagePack that unpacks what it packed: when the server finds the frame of the
  -- client's command and goes on behind it, the dispatched call ends with a response, the client
  -- finds what the server sends, and request and packed response are within the limit and not
  -- empty, then the call of the client ends. It returns the response of the dispatched call on the
  -- server's storage, or it fails and gives the connection up; and the server's storage is as that
  -- call leaves it.
  pub send_command-dispatch_command :
      (fd fd' : ℕ) (cmd : Command) (request reply rest : Bytes) (response : Response)
      (c : RpcClient N) (session session' : Session M W) (s : Storage W)
      → c.conn ≡ some (some fd)
      → session.link.socket_fd ≡ some fd'
      → session.link.connected ≡ true
      → msgpack.pack_command cmd ≡ got request
      → far.coming session.link.network fd' ≡ frame request ++ rest
      → process_request os fuel msgpack handlers session ≡ ends (true, session')
      → far.sent session'.link.network fd'
        ≡ far.sent session.link.network fd' ++ near.coming c.network fd
      → dispatch_command handlers cmd session.storage ≡ ends (response, s)
      → msgpack.pack_response response ≡ got reply
      → 0 < length request
      → length request ≤ max_message_size
      → 0 < length reply
      → length reply ≤ max_message_size
      → 4 + length request + near.interrupts c.network < fuel
      → 4 + length reply + near.interrupts c.network < fuel
      → 4 + length request + far.interrupts session.link.network < fuel
      → 4 + length reply + far.interrupts session.link.network < fuel
      → Answered dialer near fuel msgpack fd
          (near.sent c.network fd)
          request
          response
          []
          (send_command dialer fuel msgpack cmd c)
        × (session'.storage ≡ s)
  send_command-dispatch_command fd fd' cmd request reply rest response c session session' s conn_is
        fd_is up packed stream run linked done packed' some_bytes small some_bytes' small' lt lt'
        lt₂ lt₃ =
      let done_by : Served os far fuel msgpack handlers fd' (far.sent session.link.network fd')
          session.storage s reply (ends (true, session')) =
        subst
          (Served os far fuel msgpack handlers fd' (far.sent session.link.network fd')
            session.storage s reply)
          run
          (process_request-Served os far fuel msgpack handlers fd' request reply rest cmd response
            session s fd_is up stream some_bytes small small' lt₂ lt₃
            (codec.command_back cmd request packed) done packed') in
      let (so, up', stored) = done_by in
      let found : near.coming c.network fd ≡ frame reply ++ [] =
        append_cancel_left (far.sent session.link.network fd') (near.coming c.network fd)
          (frame reply) (sym linked ∙ so)
        ∙ sym (append-nil (frame reply)) in
      (
        send_command-Answered dialer near fuel msgpack fd cmd request reply [] response c conn_is
            packed (codec.response_back response reply packed') found small some_bytes' small' lt
            lt',
        stored,
      )
