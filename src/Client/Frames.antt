-- ===== src/Client/Frames.antt =====
-- The client's messages beside those of the server's MessageProtocol: the same bytes, on the same calls.
use diarkis.Base.{
  ℕ, ◌+◌, ◌%◌, ◌^◌, ◌≤◌, ◌<◌, ◌≡◌, refl, Option, none, some, Bool, true, false, Bytes, length,
  arith,
}
use diarkis.Storage.Monad.{Run, ends, blocks, spins}
use diarkis.Tcp
use diarkis.Tcp.{Sockets, Link}
use diarkis.Tcp.Laws.{StreamLaws}
use diarkis.Tcp.Sending.{Sent, send-Sent}
use diarkis.Tcp.Receiving.{Received, receive_exact-Received}
use diarkis.Protocol
use diarkis.Protocol.{max_message_size, htonl, ntohl, received_or, sent_or, accepted}
use diarkis.Protocol.Order.{length-htonl}
use diarkis.Client.Connection.{Dialer, send, receive_exact}
use diarkis.Client.Streams.{unflagged, forget, send-forget, receive_exact-forget}
use diarkis.Client.Rpc.{sane, send_frame, receive_frame}

module _ {N : Type 0} (dialer : Dialer N) (laws : StreamLaws dialer.sockets) (fuel : ℕ) where
  open laws use {sent, coming, interrupts}

  body-forget :
      (w₀ : N) (fd : ℕ) (old header message : Bytes) (r : Run (Bool × Link N))
      → Sent dialer.sockets laws w₀ fd old header r
      → sent_or (forget r) (send dialer.sockets fuel message)
        ≡ forget (sent_or r (Tcp.send dialer.sockets fuel message))
  body-forget w₀ fd old header message (ends (true, l)) h =
      send-forget dialer.sockets fuel message l h.1
  body-forget w₀ fd old header message (ends (false, l)) h = refl
  body-forget w₀ fd old header message blocks h = refl
  body-forget w₀ fd old header message spins h = refl

  -- On an open connection of a stream that meets the laws, the client sends a message as the server does.
  pub send_frame-forget :
      (fd : ℕ) (message : Bytes) (l : Link N)
      → l.socket_fd ≡ some fd
      → l.connected ≡ true
      → length message ≤ max_message_size
      → 4 + length message + interrupts l.network < fuel
      → send_frame dialer fuel message (unflagged l)
        ≡ forget (Protocol.send_message dialer.sockets fuel message l)
  unfolding Protocol.send_message
  send_frame-forget fd message l fd_is up small lt =
      let header = htonl (length message % 2 ^ 32) in
      let run : Protocol.send_message dialer.sockets fuel message l
          ≡ sent_or (Tcp.send dialer.sockets fuel header l) (Tcp.send dialer.sockets fuel message) =
        ground (arith, small) in
      rw run (
        rw (send-forget dialer.sockets fuel header l up) (
          body-forget l.network fd (sent l.network fd) header message
            (Tcp.send dialer.sockets fuel header l)
            (send-Sent dialer.sockets laws fuel fd header l fd_is up
              (omega (arith, length-htonl (length message % 2 ^ 32))))))

  rest-forget :
      (w₀ : N) (fd : ℕ) (stream : Bytes) (r : Run (Option Bytes × Link N))
      → Received dialer.sockets laws w₀ fd 4 stream r
      → received_or (forget r) none (λ b t.
        received_or (ends (sane (ntohl b), t)) none λ n. receive_exact dialer.sockets fuel n)
        ≡ forget (
            received_or
              (received_or r none λ b l. ends (accepted dialer.sockets fuel (ntohl b), l))
              none
              λ n. Tcp.receive_exact dialer.sockets fuel n)
  rest-forget w₀ fd stream (ends (some b, l)) h = go (sane (ntohl b))
    where
      go :
          (o : Option ℕ)
          → received_or (ends (o, unflagged l)) none (λ n. receive_exact dialer.sockets fuel n)
            ≡ forget (received_or (ends (o, l)) none λ n. Tcp.receive_exact dialer.sockets fuel n)
      go (some n) = receive_exact-forget dialer.sockets fuel n l h.2
      go none = refl
  rest-forget w₀ fd stream (ends (none, l)) h = refl
  rest-forget w₀ fd stream blocks h = refl
  rest-forget w₀ fd stream spins h = refl

  -- On an open connection of a stream that meets the laws, the client receives a message as the server
  -- does.
  pub receive_frame-forget :
      (fd : ℕ) (l : Link N)
      → l.socket_fd ≡ some fd
      → l.connected ≡ true
      → 4 + interrupts l.network < fuel
      → receive_frame dialer fuel (unflagged l)
        ≡ forget (Protocol.receive_message dialer.sockets fuel l)
  unfolding Protocol.receive_message
  receive_frame-forget fd l fd_is up lt = rw (receive_exact-forget dialer.sockets fuel 4 l up) (
      rest-forget l.network fd (coming l.network fd) (Tcp.receive_exact dialer.sockets fuel 4 l)
        (receive_exact-Received dialer.sockets laws fuel fd 4 l fd_is up lt))
