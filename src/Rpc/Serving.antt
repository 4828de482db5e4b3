-- ===== src/Rpc/Serving.antt =====
-- What RpcServer::process_request answers.
use diarkis.Base.{
  ℕ, ◌+◌, ◌≤◌, ◌<◌, ◌≡◌, refl, Option, none, some, Bool, true, false, Bytes, ◌++◌, length, arith,
  ◌⊎◌, inl, inr,
}
use mathlib.Core.Path.{subst}
use diarkis.Commands.{Command, Response, got, Msgpack}
use diarkis.Storage.Monad.{Storage, Run, ends, blocks, spins}
use diarkis.Tcp.{Sockets, Link}
use diarkis.Tcp.Laws.{StreamLaws}
use diarkis.Protocol.{max_message_size, receive_message, send_message}
use diarkis.Protocol.Frames.{frame, Framed, Taken, send_message-Framed, receive_message-Taken}
use diarkis.Rpc.{
  Handlers, Session, dispatch_command, send_response, on_link, serve_received, process_request,
}

module _ {N W : Type 0} (os : Sockets N) (laws : StreamLaws os) (fuel : ℕ) (msgpack : Msgpack)
    (handlers : Handlers W) where
  open laws use {sent, coming, interrupts}

  -- The frame of `reply` was sent behind `old`, and the storage is `s`; or the connection counts
  -- as lost, and the storage is `s`, or `before` if the request was not received.
  abbrev pub Served : ℕ → Bytes → Storage W → Storage W → Bytes → Run (Bool × Session N W) → Type 0
  Served fd old before s reply (ends (true, c)) =
      (sent c.link.network fd ≡ old ++ frame reply) × (c.link.connected ≡ true) × (c.storage ≡ s)
  Served fd old before s reply (ends (false, c)) =
      (c.link.connected ≡ false) × ((c.storage ≡ s) ⊎ (c.storage ≡ before))
  Served fd old before s reply blocks = ⊥
  Served fd old before s reply spins = ⊥

  Served-on_link :
      (w₀ : N) (fd : ℕ) (before s : Storage W) (old reply : Bytes) (r : Run (Bool × Link N))
      → Framed os laws w₀ fd old reply r
      → Served fd old before s reply (on_link os fuel msgpack handlers r s)
  Served-on_link w₀ fd before s old reply (ends (true, l)) (so, up, fd_is, still, within) =
      (so, up, refl)
  Served-on_link w₀ fd before s old reply (ends (false, l)) h = (h, inl refl)
  Served-on_link w₀ fd before s old reply blocks h = h
  Served-on_link w₀ fd before s old reply spins h = h

  answered :
      (fd : ℕ) (request reply rest : Bytes) (cmd : Command) (response : Response) (l : Link N)
      (before s : Storage W) (r : Run (Option Bytes × Link N))
      → msgpack.unpack_command request ≡ got cmd
      → dispatch_command handlers cmd before ≡ ends (response, s)
      → msgpack.pack_response response ≡ got reply
      → length reply ≤ max_message_size
      → 4 + length reply + interrupts l.network < fuel
      → Taken os laws l.network fd request rest r
      → Served fd
          (sent l.network fd)
          before
          s
          reply
          (serve_received os fuel msgpack handlers r before)
  unfolding send_response
  answered fd request reply rest cmd response l before s (ends (some b, l')) decoded done packed
        small lt (same, left, up, fd_is, kept, within) =
      let framed =
        subst (λ old. Framed os laws l'.network fd old reply (send_message os fuel reply l')) kept
          (send_message-Framed os laws fuel fd reply l' fd_is up small
            (omega (arith, lt, within))) in
      rw same (
        rw decoded (
          rw done (
            rw packed (
              Served-on_link l'.network fd before s (sent l.network fd) reply
                (send_message os fuel reply l') framed))))
  answered fd request reply rest cmd response l before s (ends (none, l')) decoded done packed small
        lt h =
      (h, inr refl)
  answered fd request reply rest cmd response l before s blocks decoded done packed small lt h = h
  answered fd request reply rest cmd response l before s spins decoded done packed small lt h = h

  -- Over a stream that meets the laws, on an open connection, with enough fuel: when the frame of
  -- a request comes that decodes to a command, the dispatched call ends with a response, and
  -- request and packed response are within the limit, the request not empty, then the frame of the
  -- packed response has been sent behind what was sent before, and the storage is as the call left
  -- it; or the connection counts as lost, and the storage is that or as it was.
  pub process_request-Served :
      (fd : ℕ) (request reply rest : Bytes) (cmd : Command) (response : Response) (c : Session N W)
      (s : Storage W)
      → c.link.socket_fd ≡ some fd
      → c.link.connected ≡ true
      → coming c.link.network fd ≡ frame request ++ rest
      → 0 < length request
      → length request ≤ max_message_size
      → length reply ≤ max_message_size
      → 4 + length request + interrupts c.link.network < fuel
      → 4 + length reply + interrupts c.link.network < fuel
      → msgpack.unpack_command request ≡ got cmd
      → dispatch_command handlers cmd c.storage ≡ ends (response, s)
      → msgpack.pack_response response ≡ got reply
      → Served fd
          (sent c.link.network fd)
          c.storage
          s
          reply
          (process_request os fuel msgpack handlers c)
  unfolding process_request
  process_request-Served fd request reply rest cmd response c s fd_is up stream some_bytes small
        small' lt lt' decoded done packed =
      answered fd request reply rest cmd response c.link c.storage s
        (receive_message os fuel c.link) decoded done packed small' lt'
        (receive_message-Taken os laws fuel fd request rest c.link fd_is up stream some_bytes small
          lt)
