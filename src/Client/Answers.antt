-- ===== src/Client/Answers.antt =====
-- What RpcClient::send_command returns.
use diarkis.Base.{
  ℕ, ◌+◌, ◌≤◌, ◌<◌, ◌≡◌, refl, ap, ◌∙◌, Option, none, some, Bool, true, false, Bytes, length, ◌++◌,
  arith, ◌⊎◌, inl, inr,
}
use diarkis.Storage.Monad.{Run, ends, blocks, spins}
use diarkis.Commands.{Command, Response, Msgpack, got}
use diarkis.Tcp.{Link}
use diarkis.Tcp.Laws.{StreamLaws}
use diarkis.Protocol
use diarkis.Protocol.{max_message_size}
use diarkis.Protocol.Frames.{frame, Framed, Taken, send_message-Framed, receive_message-Taken}
use diarkis.Client.Connection.{Dialer}
use diarkis.Client.Streams.{unflagged, forget}
use diarkis.Client.Frames.{send_frame-forget, receive_frame-forget}
use diarkis.Client.Rpc.{
  RpcClient, is_connected, disconnect, holding, held, respond, await, send_message, receive_message,
  send_command,
}

module _ {N : Type 0} (dialer : Dialer N) (laws : StreamLaws dialer.sockets) (fuel : ℕ)
    (msgpack : Msgpack) where
  open laws use {sent, coming, interrupts}

  -- The call returned the response over the connection that it had, with the frame of the request behind
  -- `old` and `rest` still to come; or it returned a failure, and the client has no connection.
  abbrev pub Answered : ℕ → Bytes → Bytes → Response → Bytes → Run (Response × RpcClient N) → Type 0
  Answered fd old request response rest (ends (resp, c)) =
      ((resp ≡ response)
        × (c.conn ≡ some (some fd))
        × (sent c.network fd ≡ old ++ frame request)
        × (coming c.network fd ≡ rest))
      ⊎ ((resp.success ≡ false) × (c.conn ≡ none))
  Answered fd old request response rest blocks = ⊥
  Answered fd old request response rest spins = ⊥

  pub conn-disconnect : (c : RpcClient N) → (disconnect dialer c).conn ≡ none
  unfolding disconnect
  conn-disconnect c = ground arith

  responded :
      (w₀ : N) (fd : ℕ) (old request reply rest : Bytes) (response : Response) (c : RpcClient N)
      (r : Run (Option Bytes × Link N))
      → msgpack.unpack_response reply ≡ got response
      → sent w₀ fd ≡ old ++ frame request
      → Taken dialer.sockets laws w₀ fd reply rest r
      → Answered fd old request response rest (respond dialer fuel msgpack (held c (forget r)))
  responded w₀ fd old request reply rest response c (ends (some b, l)) decoded passed
        (same, left, up, fd_is, kept, within) =
      rw same (rw decoded (inl (refl, ap some fd_is, kept ∙ passed, left)))
  responded w₀ fd old request reply rest response c (ends (none, l)) decoded passed h =
      inr (refl, conn-disconnect _)
  responded w₀ fd old request reply rest response c blocks decoded passed h = h
  responded w₀ fd old request reply rest response c spins decoded passed h = h

  awaited :
      (w₀ : N) (fd : ℕ) (old request reply rest : Bytes) (response : Response) (c : RpcClient N)
      (r : Run (Bool × Link N))
      → msgpack.unpack_response reply ≡ got response
      → coming w₀ fd ≡ frame reply ++ rest
      → 0 < length reply
      → length reply ≤ max_message_size
      → 4 + length reply + interrupts w₀ < fuel
      → Framed dialer.sockets laws w₀ fd old request r
      → Answered fd old request response rest (await dialer fuel msgpack (held c (forget r)))
  unfolding receive_message
  awaited w₀ fd old request reply rest response c (ends (true, l)) decoded stream some_bytes small
        lt (passed, up, fd_is, still, within) =
      rw (receive_frame-forget dialer laws fuel fd l fd_is up (omega (arith, lt, within))) (
        responded l.network fd old request reply rest response (holding c (unflagged l))
          (Protocol.receive_message dialer.sockets fuel l) decoded passed
          (receive_message-Taken dialer.sockets laws fuel fd reply rest l fd_is up (still ∙ stream)
            some_bytes small (omega (arith, lt, within))))
  awaited w₀ fd old request reply rest response c (ends (false, l)) decoded stream some_bytes small
        lt h =
      inr (refl, conn-disconnect _)
  awaited w₀ fd old request reply rest response c blocks decoded stream some_bytes small lt h = h
  awaited w₀ fd old request reply rest response c spins decoded stream some_bytes small lt h = h

  -- Over a stream that meets the laws, on an open connection, with enough fuel: when the command
  -- packs to a request within the limit, and the frame of a reply comes, not empty and within the
  -- limit, that unpacks to a response, then send_command ends. It returns that response, with the
  -- frame of the request sent and what follows the reply left to come; or it returns a failure,
  -- and the client has given its connection up.
  pub send_command-Answered :
      (fd : ℕ) (cmd : Command) (request reply rest : Bytes) (response : Response) (c : RpcClient N)
      → c.conn ≡ some (some fd)
      → msgpack.pack_command cmd ≡ got request
      → msgpack.unpack_response reply ≡ got response
      → coming c.network fd ≡ frame reply ++ rest
      → length request ≤ max_message_size
      → 0 < length reply
      → length reply ≤ max_message_size
      → 4 + length request + interrupts c.network < fuel
      → 4 + length reply + interrupts c.network < fuel
      → Answered fd
          (sent c.network fd)
          request
          response
          rest
          (send_command dialer fuel msgpack cmd c)
  unfolding send_command is_connected send_message
  send_command-Answered fd cmd request reply rest response c conn_is packed decoded stream small
        some_bytes small' lt lt' =
      let l : Link N = record { socket_fd = some fd; connected = true; network = c.network } in
      rw conn_is (
        rw packed (
          rw (send_frame-forget dialer laws fuel fd request l refl refl small lt) (
            awaited c.network fd (sent c.network fd) request reply rest response
              (record c { conn = some (some fd) })
              (Protocol.send_message dialer.sockets fuel request l) decoded stream some_bytes small'
              lt' (send_message-Framed dialer.sockets laws fuel fd request l refl refl small lt))))
