-- ===== src/Tcp.antt =====
-- src/include/diarkis/tcp.h and src/tcp.cc: TcpConnection. The socket calls are an interface over a
-- network `N`. A connection is used by one thread at a time: socket_mutex_ is not modelled.
pub mod Laws
pub mod Sending
pub mod Receiving
pub mod Closing
pub mod Pipe
mod Examples
use diarkis.Base.{
  ℕ, zero, suc, ◌+◌, ◌-◌, ◌==◌, Option, none, some, Bool, true, false, ◌||◌, List, [], ◌++◌, Bytes,
  length, ltb, drop, is_empty, if◌then◌else◌,
}
use diarkis.Error.{Errno, eintr, eagain, ewouldblock}
use diarkis.Posix.{Outcome, returned, failed}
use diarkis.Storage.Monad.{Run, ends, spins}
use diarkis.Storage.Scope.{is_eintr}

-- ::send with MSG_NOSIGNAL, ::recv, ::shutdown and ::close on a socket.
pub record Sockets (N : Type 0) : Type 0 where
  pub send_bytes : ℕ → Bytes → N → Outcome ℕ × N
  pub receive_bytes : ℕ → ℕ → N → Outcome Bytes × N
  pub shutdown_socket : ℕ → N → N
  pub close_socket : ℕ → N → N

-- A TcpConnection and the network; `none` is the descriptor -1.
pub record Link (N : Type 0) : Type 0 where
  pub socket_fd : Option ℕ
  pub connected : Bool
  pub network : N

-- TcpConnection::TcpConnection
abbrev pub new_link : {N : Type 0} → ℕ → N → Link N
new_link fd w = record { socket_fd = some fd; connected = true; network = w }

abbrev pub is_again : Errno → Bool
is_again eagain = true
is_again ewouldblock = true
is_again _ = false

-- What a method does with the connection.
abbrev pub Talk : Type 0 → Type 0 → Type 0
Talk N A = Link N → Run (A × Link N)

module _ {N : Type 0} where
  abbrev pub replied : {A : Type 0} → A → Talk N A
  replied a l = ends (a, l)

  -- The fuel is used up.
  abbrev pub lost : {A : Type 0} → Talk N A
  lost l = spins

  -- connected_.store(false), and a return
  abbrev pub dropped : {A : Type 0} → A → Talk N A
  dropped a l = ends (a, record l { connected = false })

  -- if (!connected_ || socket_fd_ < 0) return refusal
  abbrev pub opened : {A : Type 0} → A → (ℕ → Talk N A) → Bool → Option ℕ → Talk N A
  opened refusal body true (some fd) = body fd
  opened refusal body true none = replied refusal
  opened refusal body false o = replied refusal

  abbrev pub guarded : {A : Type 0} → A → (ℕ → Talk N A) → Talk N A
  guarded refusal body l = opened refusal body l.connected l.socket_fd l

  abbrev pub call :
      {A B : Type 0} → (N → Outcome B × N) → (B → Talk N A) → (Errno → Talk N A) → Talk N A
  call f then_do otherwise l =
      let (o, w) = f l.network in
      elim o [
        | returned b ↦ then_do b (record l { network = w })
        | failed err ↦ otherwise err (record l { network = w })
      ]

module _ {N : Type 0} (os : Sockets N) where
  open os use {send_bytes, receive_bytes, shutdown_socket, close_socket}

  -- The loop of send, after `total` bytes.
  unfoldable pub send_loop : ℕ → ℕ → Bytes → ℕ → Talk N Bool
  send_loop zero fd buffer total = lost
  send_loop (suc fuel) fd buffer total =
      let round =
        call (send_bytes fd (drop total buffer))
          (λ n.
            let rest = send_loop fuel fd buffer (total + n) in
            if n == 0 then dropped false else rest)
          (λ err.
            let again = send_loop fuel fd buffer total in
            if is_eintr err then again else dropped false) in
      if ltb total (length buffer) then round else replied true

  -- TcpConnection::send
  unfoldable pub send : ℕ → Bytes → Talk N Bool
  unfolding send_loop
  send fuel buffer = guarded false λ fd. send_loop fuel fd buffer 0

  -- TcpConnection::receive
  unfoldable pub receive : ℕ → Talk N Bytes
  receive max_size = guarded [] λ fd.
      call (receive_bytes fd max_size)
        (λ bytes. if is_empty bytes then dropped [] else replied bytes)
        (λ err. if is_eintr err || is_again err then replied [] else dropped [])

  -- The loop of receive_exact, after the bytes `got`; `none` is the result false.
  unfoldable pub receive_loop : ℕ → ℕ → ℕ → Bytes → Talk N (Option Bytes)
  receive_loop zero fd size got = lost
  receive_loop (suc fuel) fd size got =
      let round =
        call (receive_bytes fd (size - length got))
          (λ bytes.
            let rest = receive_loop fuel fd size (got ++ bytes) in
            if is_empty bytes then dropped none else rest)
          (λ err.
            let again = receive_loop fuel fd size got in
            if is_eintr err then again else dropped none) in
      if ltb (length got) size then round else replied (some got)

  -- TcpConnection::receive_exact; the buffer is returned with the result true.
  unfoldable pub receive_exact : ℕ → ℕ → Talk N (Option Bytes)
  unfolding receive_loop
  receive_exact fuel size = guarded none λ fd. receive_loop fuel fd size []

  abbrev pub closed : Bool → Option ℕ → Link N → Link N
  closed true (some fd) l = record l {
    connected = false;
    socket_fd = none;
    network = close_socket fd (shutdown_socket fd l.network);
  }
  closed true none l = record l { connected = false }
  closed false o l = l

  -- TcpConnection::close
  unfoldable pub close : Link N → Link N
  close l = closed l.connected l.socket_fd l
