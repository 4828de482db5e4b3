-- ===== src/Client/Rpc.antt =====
-- client/cpp/src/rpc.cc: RpcClient, one command at a time over a connection that is made when it is needed.
use diarkis.Base.{
  ℕ, ◌*◌, ◌%◌, ◌^◌, ◌==◌, ◌||◌, Option, none, some, Bool, true, false, Bytes, text, ◌++◌, length,
  ltb, if◌then◌else◌,
}
use diarkis.Commands.{Command, Response, refusal, what, Try, got, threw, Msgpack}
use diarkis.Storage.Monad.{Run, ends, blocks, spins}
use diarkis.Protocol.{htonl, ntohl, received_or, sent_or}
use diarkis.Client.Connection.{TcpConnection, Dialer, Use, dial, send, receive_exact, close}

-- An RpcClient and the network; `conn` is the pointer conn_, and the descriptor of what it points to.
pub record RpcClient (N : Type 0) : Type 0 where
  pub address : Bytes
  pub port : ℕ
  pub conn : Option (Option ℕ)
  pub network : N

abbrev pub is_open : Option (Option ℕ) → Bool
is_open (some (some fd)) = true
is_open (some none) = false
is_open none = false

-- RpcClient::is_connected
unfoldable pub is_connected : {N : Type 0} → RpcClient N → Bool
is_connected c = is_open c.conn

-- The greatest length of a response
abbrev pub max_response_size : ℕ
max_response_size = 100 * 1024 * 1024

abbrev pub sane : ℕ → Option ℕ
sane msg_len = if msg_len == 0 || ltb max_response_size msg_len then none else some msg_len

-- What a method does with the client.
abbrev pub Remote : Type 0 → Type 0 → Type 0
Remote N A = RpcClient N → Run (A × RpcClient N)

module _ {N : Type 0} where
  -- The client whose conn_ points to this connection.
  abbrev pub holding : RpcClient N → TcpConnection N → RpcClient N
  holding c t = record c { conn = some t.socket_fd; network = t.network }

  abbrev pub held : {A : Type 0} → RpcClient N → Run (A × TcpConnection N) → Run (A × RpcClient N)
  held c (ends (a, t)) = ends (a, holding c t)
  held c blocks = blocks
  held c spins = spins

  -- if (!conn_) return refusal
  abbrev pub on_conn : {A : Type 0} → A → Use N A → Option (Option ℕ) → Remote N A
  on_conn refusal body (some fd) c = held c (body (record { socket_fd = fd; network = c.network }))
  on_conn refusal body none c = ends (refusal, c)

module _ {N : Type 0} (dialer : Dialer N) where
  open dialer use {sockets}

  -- The end of connect: the new connection is kept if it is open.
  abbrev pub dialled : RpcClient N → TcpConnection N → Bool × RpcClient N
  dialled c t = elim t.socket_fd [
    | some fd ↦ (true, holding c t)
    | none ↦ (false, record c { conn = none; network = t.network })
  ]

  -- RpcClient::connect
  unfoldable pub connect : RpcClient N → Bool × RpcClient N
  unfolding is_connected dial
  connect c =
      if is_connected c then (true, c) else dialled c (dial dialer c.address c.port c.network)

  abbrev disconnected : Option (Option ℕ) → RpcClient N → RpcClient N
  disconnected (some fd) c =
      let t = close sockets (record { socket_fd = fd; network = c.network }) in
      record c { conn = none; network = t.network }
  disconnected none c = c

  -- RpcClient::disconnect
  unfoldable pub disconnect : RpcClient N → RpcClient N
  unfolding close
  disconnect c = disconnected c.conn c

  module _ (fuel : ℕ) where
    abbrev pub receive_frame : Use N (Option Bytes)
    receive_frame t = received_or (receive_exact sockets fuel 4 t) none λ msg_len_net t'.
        received_or (ends (sane (ntohl msg_len_net), t')) none
          λ msg_len. receive_exact sockets fuel msg_len

    -- RpcClient::receive_message
    unfoldable pub receive_message : Remote N (Option Bytes)
    receive_message c = on_conn none receive_frame c.conn c

    abbrev pub send_frame : Bytes → Use N Bool
    send_frame message t =
        sent_or (send sockets fuel (htonl (length message % 2 ^ 32)) t) (send sockets fuel message)

    -- RpcClient::send_message
    unfoldable pub send_message : Bytes → Remote N Bool
    send_message message c = on_conn false (send_frame message) c.conn c

    -- resp.error = error; disconnect(); return resp
    abbrev pub broken_off : Bytes → Remote N Response
    broken_off error c = ends (refusal error, disconnect c)

    -- The handler of send_command.
    abbrev pub caught : {A : Type 0} → (A → Remote N Response) → Try A → Remote N Response
    caught then_do (got a) = then_do a
    caught then_do (threw e) = broken_off (text "RPC error: " ++ what e)

    abbrev pub respond : Msgpack → Run (Option Bytes × RpcClient N) → Run (Response × RpcClient N)
    respond msgpack (ends (some response_data, c)) =
        caught (λ resp c'. ends (resp, c')) (msgpack.unpack_response response_data) c
    respond msgpack (ends (none, c)) = broken_off (text "Failed to receive response") c
    respond msgpack blocks = blocks
    respond msgpack spins = spins

    abbrev pub await : Msgpack → Run (Bool × RpcClient N) → Run (Response × RpcClient N)
    await msgpack (ends (true, c)) = respond msgpack (receive_message c)
    await msgpack (ends (false, c)) = broken_off (text "Failed to send request") c
    await msgpack blocks = blocks
    await msgpack spins = spins

    -- The try block of send_command.
    abbrev pub exchange : Msgpack → Command → Remote N Response
    exchange msgpack cmd =
        caught (λ request_data c. await msgpack (send_message request_data c))
          (msgpack.pack_command cmd)

    -- RpcClient::send_command
    unfoldable pub send_command : Msgpack → Command → Remote N Response
    unfolding is_connected connect disconnect send_message receive_message
    send_command msgpack cmd c =
        let (done, c') = connect c in
        if is_connected c
        then exchange msgpack cmd c
        else if done
        then exchange msgpack cmd c'
        else ends (refusal (text "Not connected to server"), c')
