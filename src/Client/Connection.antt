-- ===== src/Client/Connection.antt =====
-- client/cpp/src/tcp.cc: the client's TcpConnection. It has no flag like the server's connection: a call
-- that fails returns false, and the descriptor stays open until close.
use diarkis.Base.{
  ℕ, zero, suc, ◌+◌, ◌-◌, ◌==◌, Option, none, some, Bool, true, false, [], ◌++◌, Bytes, length, ltb,
  drop, is_empty, if◌then◌else◌,
}
use diarkis.Error.{Errno}
use diarkis.Posix.{Outcome, returned, failed}
use diarkis.Storage.Monad.{Run, ends, spins}
use diarkis.Storage.Scope.{is_eintr}
use diarkis.Tcp.{Sockets}

-- A TcpConnection and the network; `none` is the descriptor -1.
pub record TcpConnection (N : Type 0) : Type 0 where
  pub socket_fd : Option ℕ
  pub network : N

-- ::socket, the calls of ::setsockopt, ::inet_pton and ::connect, besides the calls on an open socket.
pub record Dialer (N : Type 0) : Type 0 where
  pub sockets : Sockets N
  pub open_socket : N → Option ℕ × N
  pub set_options : ℕ → N → N
  pub is_address : Bytes → Bool
  pub connect_socket : ℕ → Bytes → ℕ → N → Bool × N

module _ {N : Type 0} (dialer : Dialer N) where
  open dialer use {sockets, open_socket, set_options, is_address, connect_socket}
  open sockets use {close_socket}

  -- ::close(socket_fd_), socket_fd_ = -1, and the return
  abbrev given_up : ℕ → N → TcpConnection N
  given_up fd w = record { socket_fd = none; network = close_socket fd w }

  abbrev dial_from : Bytes → ℕ → ℕ → N → TcpConnection N
  dial_from address port fd w =
      let (done, w') = connect_socket fd address port w in
      if is_address address
      then if done then record { socket_fd = some fd; network = w' } else given_up fd w'
      else given_up fd w

  -- TcpConnection::TcpConnection
  unfoldable pub dial : Bytes → ℕ → N → TcpConnection N
  dial address port w =
      let (o, w') = open_socket w in
      elim o [
        | none ↦ record { socket_fd = none; network = w' }
        | some fd ↦ dial_from address port fd (set_options fd w')
      ]

-- What a method does with the connection.
abbrev pub Use : Type 0 → Type 0 → Type 0
Use N A = TcpConnection N → Run (A × TcpConnection N)

module _ {N : Type 0} where
  abbrev pub result : {A : Type 0} → A → Use N A
  result a t = ends (a, t)

  -- The fuel is used up.
  abbrev pub stuck : {A : Type 0} → Use N A
  stuck t = spins

  -- if (socket_fd_ < 0) return refusal
  abbrev pub on_socket : {A : Type 0} → A → (ℕ → Use N A) → Option ℕ → Use N A
  on_socket refusal body (some fd) = body fd
  on_socket refusal body none = result refusal

  abbrev pub attempt :
      {A B : Type 0} → (N → Outcome B × N) → (B → Use N A) → (Errno → Use N A) → Use N A
  attempt f then_do otherwise t =
      let (o, w) = f t.network in
      elim o [
        | returned b ↦ then_do b (record t { network = w })
        | failed err ↦ otherwise err (record t { network = w })
      ]

module _ {N : Type 0} (os : Sockets N) where
  open os use {send_bytes, receive_bytes, shutdown_socket, close_socket}

  -- The loop of send, after `total_sent` bytes.
  unfoldable pub send_loop : ℕ → ℕ → Bytes → ℕ → Use N Bool
  send_loop zero fd buffer total_sent = stuck
  send_loop (suc fuel) fd buffer total_sent =
      let round =
        attempt (send_bytes fd (drop total_sent buffer))
          (λ n.
            let rest = send_loop fuel fd buffer (total_sent + n) in
            if n == 0 then result false else rest)
          (λ err.
            let again = send_loop fuel fd buffer total_sent in
            if is_eintr err then again else result false) in
      if ltb total_sent (length buffer) then round else result true

  -- TcpConnection::send
  unfoldable pub send : ℕ → Bytes → Use N Bool
  unfolding send_loop
  send fuel buffer t = on_socket false (λ fd. send_loop fuel fd buffer 0) t.socket_fd t

  -- TcpConnection::receive
  unfoldable pub receive : ℕ → Use N Bytes
  receive max_size t =
      on_socket []
        (λ fd. attempt (receive_bytes fd max_size) (λ bytes. result bytes) (λ err. result []))
        t.socket_fd t

  -- The loop of receive_exact, after the bytes `got`; `none` is the result false.
  unfoldable pub receive_loop : ℕ → ℕ → ℕ → Bytes → Use N (Option Bytes)
  receive_loop zero fd size got = stuck
  receive_loop (suc fuel) fd size got =
      let round =
        attempt (receive_bytes fd (size - length got))
          (λ bytes.
            let rest = receive_loop fuel fd size (got ++ bytes) in
            if is_empty bytes then result none else rest)
          (λ err.
            let again = receive_loop fuel fd size got in
            if is_eintr err then again else result none) in
      if ltb (length got) size then round else result (some got)

  -- TcpConnection::receive_exact; the buffer is returned with the result true.
  unfoldable pub receive_exact : ℕ → ℕ → Use N (Option Bytes)
  unfolding receive_loop
  receive_exact fuel size t = on_socket none (λ fd. receive_loop fuel fd size []) t.socket_fd t

  abbrev closed : Option ℕ → TcpConnection N → TcpConnection N
  closed (some fd) t = record {
    socket_fd = none;
    network = close_socket fd (shutdown_socket fd t.network);
  }
  closed none t = t

  -- TcpConnection::close
  unfoldable pub close : TcpConnection N → TcpConnection N
  close t = closed t.socket_fd t
