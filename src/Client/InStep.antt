-- ===== src/Client/InStep.antt =====
-- RpcClient::send_command over a stream on which anything may come.
use diarkis.Base.{
  ℕ, ◌+◌, ◌≤◌, ◌<◌, ◌≡◌, refl, ap, sym, ◌∙◌, Option, none, some, Bool, true, false, Bytes, length,
  ◌++◌, arith, ◌⊎◌, inl, inr,
}
use diarkis.Storage.Monad.{Run, ends, blocks, spins}
use diarkis.Commands.{Command, Response, Msgpack, Try, got, threw}
use diarkis.Tcp.{Link}
use diarkis.Tcp.Laws.{StreamLaws}
use diarkis.Protocol
use diarkis.Protocol.{max_message_size, ntohl}
use diarkis.Protocol.Frames.{Framed, send_message-Framed}
use diarkis.Protocol.Whole.{Whole, receive_message-Whole}
use diarkis.Client.Connection.{Dialer}
use diarkis.Client.Streams.{unflagged, forget}
use diarkis.Client.Frames.{send_frame-forget, receive_frame-forget}
use diarkis.Client.Answers.{conn-disconnect}
use diarkis.Client.Rpc.{
  RpcClient, is_connected, holding, held, respond, await, caught, send_message, receive_message,
  send_command,
}

module _ {N : Type 0} (dialer : Dialer N) (laws : StreamLaws dialer.sockets) (fuel : ℕ)
    (msgpack : Msgpack) where
  open laws use {sent, coming, interrupts}

  -- The call took one whole message off the stream of the network `w₀`, four bytes of length first, returned
  -- what it unpacks to, and kept the connection; or it returned a failure without one.
  abbrev pub InStep : N → ℕ → Run (Response × RpcClient N) → Type 0
  InStep w₀ fd (ends (resp, c)) =
      ((c.conn ≡ some (some fd))
        × ((header : Bytes) × ((reply : Bytes) × ((coming w₀ fd
                  ≡ header ++ (reply ++ coming c.network fd))
                × (length header ≡ 4)
                × (ntohl header ≡ length reply)
                × (msgpack.unpack_response reply ≡ got resp)))))
      ⊎ ((c.conn ≡ none) × (resp.success ≡ false))
  InStep w₀ fd blocks = ⊥
  InStep w₀ fd spins = ⊥

  caught-InStep :
      (w₀ : N) (fd : ℕ) (header reply : Bytes) (c : RpcClient N) (t : Try Response)
      → msgpack.unpack_response reply ≡ t
      → c.conn ≡ some (some fd)
      → coming w₀ fd ≡ header ++ (reply ++ coming c.network fd)
      → length header ≡ 4
      → ntohl header ≡ length reply
      → InStep w₀ fd (caught dialer fuel (λ resp c'. ends (resp, c')) t c)
  caught-InStep w₀ fd header reply c (got resp) decoded conn_is so four said =
      inl (conn_is, (header, (reply, (so, four, said, decoded))))
  caught-InStep w₀ fd header reply c (threw e) decoded conn_is so four said =
      inr (conn-disconnect dialer laws fuel msgpack c, refl)

  responded-InStep :
      (w₀ w : N) (fd : ℕ) (c : RpcClient N) (r : Run (Option Bytes × Link N))
      → coming w fd ≡ coming w₀ fd
      → Whole dialer.sockets laws w fd r
      → InStep w₀ fd (respond dialer fuel msgpack (held c (forget r)))
  responded-InStep w₀ w fd c (ends (some reply, l)) still
        ((header, (so, four, said)), some_bytes, small, up, fd_is, kept, within) =
      caught-InStep w₀ fd header reply (holding c (unflagged l)) (msgpack.unpack_response reply)
        refl (ap some fd_is) (sym still ∙ so) four said
  responded-InStep w₀ w fd c (ends (none, l)) still h =
      inr (conn-disconnect dialer laws fuel msgpack (holding c (unflagged l)), refl)
  responded-InStep w₀ w fd c blocks still h = h
  responded-InStep w₀ w fd c spins still h = h

  awaited-InStep :
      (w₀ : N) (fd : ℕ) (old request : Bytes) (c : RpcClient N) (r : Run (Bool × Link N))
      → 4 + max_message_size + interrupts w₀ < fuel
      → Framed dialer.sockets laws w₀ fd old request r
      → InStep w₀ fd (await dialer fuel msgpack (held c (forget r)))
  unfolding receive_message
  awaited-InStep w₀ fd old request c (ends (true, l)) lt (passed, up, fd_is, still, within) =
      rw (receive_frame-forget dialer laws fuel fd l fd_is up (omega (arith, lt, within))) (
        responded-InStep w₀ l.network fd (holding c (unflagged l))
          (Protocol.receive_message dialer.sockets fuel l) still
          (receive_message-Whole dialer.sockets laws fuel fd l fd_is up
            (omega (arith, lt, within))))
  awaited-InStep w₀ fd old request c (ends (false, l)) lt h =
      inr (conn-disconnect dialer laws fuel msgpack (holding c (unflagged l)), refl)
  awaited-InStep w₀ fd old request c blocks lt h = h
  awaited-InStep w₀ fd old request c spins lt h = h

  -- Over a stream that meets the laws, on an open connection, with fuel above the limit on
  -- messages: send_command of a command that packs to a request within the limit ends, whatever
  -- comes on the stream. Either it has taken one whole message off the stream, returns what that
  -- unpacks to and keeps the connection, so that the next call begins at a message's length; or it
  -- returns a failure, and has given the connection up.
  pub send_command-InStep :
      (fd : ℕ) (cmd : Command) (request : Bytes) (c : RpcClient N)
      → c.conn ≡ some (some fd)
      → msgpack.pack_command cmd ≡ got request
      → length request ≤ max_message_size
      → 4 + max_message_size + interrupts c.network < fuel
      → InStep c.network fd (send_command dialer fuel msgpack cmd c)
  unfolding send_command is_connected send_message
  send_command-InStep fd cmd request c conn_is packed small lt =
      let l : Link N = record { socket_fd = some fd; connected = true; network = c.network } in
      rw conn_is (
        rw packed (
          rw
            (send_frame-forget dialer laws fuel fd request l refl refl small
              (omega (arith, small, lt)))
            (awaited-InStep c.network fd (sent c.network fd) request
              (record c { conn = some (some fd) })
              (Protocol.send_message dialer.sockets fuel request l) lt
              (send_message-Framed dialer.sockets laws fuel fd request l refl refl small
                (omega (arith, small, lt))))))
