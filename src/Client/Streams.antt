-- ===== src/Client/Streams.antt =====
-- The client's connection beside the server's: on a connection that is not lost, both do the same.
use diarkis.Base.{
  ℕ, zero, suc, ◌+◌, ◌-◌, ◌≡◌, refl, true, [], ◌++◌, Bytes, length, ltb, drop, inl, inr, arith,
  Bool-cases, Option-cases,
}
use diarkis.Posix.Laws.{Outcome-cases}
use diarkis.Storage.Monad.{Run, ends, blocks, spins}
use diarkis.Tcp
use diarkis.Tcp.{Sockets, Link}
use diarkis.Client.Connection.{TcpConnection, send_loop, send, receive_loop, receive_exact}

module _ {N : Type 0} where
  -- The client's connection with the descriptor and the network of the server's.
  abbrev pub unflagged : Link N → TcpConnection N
  unflagged l = record { socket_fd = l.socket_fd; network = l.network }

  abbrev pub forget : {A : Type 0} → Run (A × Link N) → Run (A × TcpConnection N)
  forget (ends (a, l)) = ends (a, unflagged l)
  forget blocks = blocks
  forget spins = spins

module _ {N : Type 0} (os : Sockets N) where
  send_loop-forget :
      (fuel fd total : ℕ) (buffer : Bytes) (l : Link N)
      → send_loop os fuel fd buffer total (unflagged l)
        ≡ forget (Tcp.send_loop os fuel fd buffer total l)
  unfolding send_loop Tcp.send_loop
  send_loop-forget zero fd total buffer l = refl
  send_loop-forget (suc fuel) fd total buffer l = elim (Bool-cases (ltb total (length buffer))) [
    | inr done ↦ ground arith
    | inl more ↦ elim (Outcome-cases (os.send_bytes fd (drop total buffer) l.network)) [
      | inl (n, w, e) ↦
          ground (arith, send_loop-forget fuel fd (total + n) buffer (record l { network = w }))
      | inr (err, w, e) ↦
          ground (arith, send_loop-forget fuel fd total buffer (record l { network = w }))
    ]
  ]

  receive_loop-forget :
      (fuel fd size : ℕ) (got : Bytes) (l : Link N)
      → receive_loop os fuel fd size got (unflagged l)
        ≡ forget (Tcp.receive_loop os fuel fd size got l)
  unfolding receive_loop Tcp.receive_loop
  receive_loop-forget zero fd size got l = refl
  receive_loop-forget (suc fuel) fd size got l = elim (Bool-cases (ltb (length got) size)) [
    | inr done ↦ ground arith
    | inl more ↦ elim (Outcome-cases (os.receive_bytes fd (size - length got) l.network)) [
      | inl (b, w, e) ↦
          ground (arith, receive_loop-forget fuel fd size (got ++ b) (record l { network = w }))
      | inr (err, w, e) ↦
          ground (arith, receive_loop-forget fuel fd size got (record l { network = w }))
    ]
  ]

  pub send-forget :
      (fuel : ℕ) (buffer : Bytes) (l : Link N)
      → l.connected ≡ true
      → send os fuel buffer (unflagged l) ≡ forget (Tcp.send os fuel buffer l)
  unfolding send Tcp.send
  send-forget fuel buffer l up = elim (Option-cases l.socket_fd) [
    | inl no_fd ↦ ground arith
    | inr (fd, e) ↦ ground (arith, send_loop-forget fuel fd 0 buffer l)
  ]

  pub receive_exact-forget :
      (fuel size : ℕ) (l : Link N)
      → l.connected ≡ true
      → receive_exact os fuel size (unflagged l) ≡ forget (Tcp.receive_exact os fuel size l)
  unfolding receive_exact Tcp.receive_exact
  receive_exact-forget fuel size l up = elim (Option-cases l.socket_fd) [
    | inl no_fd ↦ ground arith
    | inr (fd, e) ↦ ground (arith, receive_loop-forget fuel fd size [] l)
  ]

  -- On a connection that is not lost, the client's send and receive_exact do what the server's do,
  -- with the same results and the same calls, and keep no flag.
  pub streams-forget :
      (fuel : ℕ) (l : Link N)
      → l.connected ≡ true
      → ((buffer : Bytes) → send os fuel buffer (unflagged l) ≡ forget (Tcp.send os fuel buffer l))
        × ((size : ℕ)
            → receive_exact os fuel size (unflagged l) ≡ forget (Tcp.receive_exact os fuel size l))
  streams-forget fuel l up = (
    λ (buffer : Bytes). send-forget fuel buffer l up,
    λ (size : ℕ). receive_exact-forget fuel size l up,
  )
