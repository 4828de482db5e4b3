-- ===== src/TcpServer.antt =====
-- TcpServer of src/include/diarkis/tcp.h and src/tcp.cc: its state, and what its operations do to it. The
-- socket calls are an interface over a network `N`. A connection is named by the number of accepted
-- connections before it. The threads are modelled by the points that they have reached.
pub mod Steps
pub mod Stopping
pub mod Stopped
mod Examples
pub mod Preserved
pub mod Invariant
pub mod Starting
pub mod Weight
pub mod Running
use diarkis.Base.{
  ℕ, suc, ◌==◌, ◌||◌, Option, none, some, Bool, true, false, List, [], ◌∷◌, ◌++◌, Bytes, text, same,
  is_empty, if◌then◌else◌, mem, without, erase_first,
}
use diarkis.Base.Int.{ℤ, pos}

-- TcpServer::Options
pub record Options : Type 0 where
  pub address : Bytes
  pub port : ℕ
  pub listen_backlog : ℤ
  pub socket_timeout_sec : ℤ

-- The options of RpcServer::RpcServer
abbrev pub rpc_options : Bytes → ℕ → Options
rpc_options address port = record {
  address = address;
  port = port;
  listen_backlog = pos 128;
  socket_timeout_sec = pos 30;
}

-- ::socket, the calls of ::setsockopt, ::inet_pton, ::bind, ::listen, ::shutdown and ::close on the
-- listening socket; the empty address is INADDR_ANY.
pub record Listener (N : Type 0) : Type 0 where
  pub open_socket : N → Option ℕ × N
  pub set_reuse : ℕ → N → N
  pub is_address : Bytes → Bool
  pub bind_to : ℕ → Bytes → ℕ → N → Bool × N
  pub listen_on : ℕ → ℤ → N → Bool × N
  pub shutdown_socket : ℕ → N → N
  pub close_fd : ℕ → N → N

-- Where accept_loop is: at the test of should_stop_, in ::accept, with a connection before and after
-- add_connection, and behind the loop.
pub data AcceptPoint : Type 0 where
  testing accepting : AcceptPoint
  accepted added : ℕ → AcceptPoint
  left : AcceptPoint

-- Where handle_connection is: in the handler, before conn->close(), before remove_connection, at its end.
pub data Phase : Type 0 where
  handling closing removing finished : Phase

pub record Thread : Type 0 where
  pub conn : ℕ
  pub phase : Phase

-- Where the thread is that calls start and stop: outside, before close_socket, before each of the joins,
-- before cleanup_connections, in its loop with these connections to come, and in the close of one of
-- them behind connected_.exchange(false), before socket_mutex_.
pub data OwnerPoint : Type 0 where
  idle closing_listener joining_accept cleaning joining_threads : OwnerPoint
  looping : List ℕ → OwnerPoint
  locking : ℕ → List ℕ → OwnerPoint

-- `connected` lists the connections whose connected_ is set, `sockets` those whose descriptor is open.
pub record Server (N : Type 0) : Type 0 where
  pub server_fd : Option ℕ
  pub running : Bool
  pub should_stop : Bool
  pub accept_thread : Option AcceptPoint
  pub connection_threads : List Thread
  pub active_connections : List ℕ
  pub connected : List ℕ
  pub sockets : List ℕ
  pub next_conn : ℕ
  pub owner : OwnerPoint
  pub network : N

module _ {N : Type 0} where
  -- TcpServer::TcpServer
  abbrev pub new_server : N → Server N
  new_server w = record {
    server_fd = none;
    running = false;
    should_stop = false;
    accept_thread = none;
    connection_threads = [];
    active_connections = [];
    connected = [];
    sockets = [];
    next_conn = 0;
    owner = idle;
    network = w;
  }

  -- TcpServer::add_connection
  abbrev pub add_connection : ℕ → Server N → Server N
  add_connection i s = record s { active_connections = s.active_connections ++ i ∷ [] }

  -- TcpServer::remove_connection
  abbrev pub remove_connection : ℕ → Server N → Server N
  remove_connection i s = record s { active_connections = erase_first i s.active_connections }

  -- conn->close()
  abbrev pub close_connection : ℕ → Server N → Server N
  close_connection i s =
      if mem i s.connected
      then record s { connected = without i s.connected; sockets = without i s.sockets }
      else s

  -- The head of TcpServer::cleanup_connections
  abbrev pub begin_cleanup : Server N → Server N
  begin_cleanup s = record s { owner = looping s.active_connections }

  -- conn->close() in its loop, up to socket_mutex_
  abbrev pub begin_close : ℕ → List ℕ → Server N → Server N
  begin_close i is s =
      if mem i s.connected
      then record s { connected = without i s.connected; owner = locking i is }
      else record s { owner = looping is }

  -- The rest of that conn->close()
  abbrev pub end_close : ℕ → List ℕ → Server N → Server N
  end_close i is s = record s { sockets = without i s.sockets; owner = looping is }

  -- The end of TcpServer::cleanup_connections
  abbrev pub end_cleanup : Server N → Server N
  end_cleanup s = record s { active_connections = []; owner = joining_threads }

  -- The new TcpConnection behind ::accept
  abbrev pub new_connection : Server N → Server N
  new_connection s = record s {
    connected = s.next_conn ∷ s.connected;
    sockets = s.next_conn ∷ s.sockets;
    next_conn = suc s.next_conn;
    accept_thread = some (accepted s.next_conn);
  }

  -- The head of stop, up to close_socket
  abbrev pub begin_stop : Server N → Server N
  begin_stop s =
      if s.running
      then record s { should_stop = true; running = false; owner = closing_listener }
      else s

module _ {N : Type 0} (listener : Listener N) where
  open listener use {
    open_socket, set_reuse, is_address, bind_to, listen_on, shutdown_socket, close_fd,
  }

  abbrev closed : Option ℕ → Server N → Server N
  closed (some fd) s = record s {
    server_fd = none;
    network = close_fd fd (shutdown_socket fd s.network);
  }
  closed none s = s

  -- TcpServer::close_socket
  unfoldable pub close_socket : Server N → Server N
  close_socket s = closed s.server_fd s

  -- TcpServer::create_socket
  unfoldable pub create_socket : Server N → Bool × Server N
  create_socket s =
      let (o, w) = open_socket s.network in
      elim o [
        | none ↦ (false, record s { server_fd = none; network = w })
        | some fd ↦ (true, record s { server_fd = some fd; network = set_reuse fd w })
      ]

  abbrev pub is_any : Bytes → Bool
  is_any address = same address (text "0.0.0.0") || is_empty address

  -- A call on the listening socket; on the descriptor -1 it fails.
  abbrev pub on_server_fd : (ℕ → N → Bool × N) → Option ℕ → Server N → Bool × Server N
  on_server_fd f (some fd) s = let (done, w) = f fd s.network in (done, record s { network = w })
  on_server_fd f none s = (false, s)

  -- TcpServer::bind_socket
  unfoldable pub bind_socket : Options → Server N → Bool × Server N
  bind_socket opts s =
      if is_any opts.address || is_address opts.address
      then on_server_fd (λ fd. bind_to fd opts.address opts.port) s.server_fd s
      else (false, s)

  -- TcpServer::listen_socket
  unfoldable pub listen_socket : Options → Server N → Bool × Server N
  listen_socket opts s = on_server_fd (λ fd. listen_on fd opts.listen_backlog) s.server_fd s

  -- What start does behind a call that succeeded, and behind one that failed on an open socket.
  abbrev pub or_close : Bool × Server N → (Server N → Bool × Server N) → Bool × Server N
  or_close (true, s) f = f s
  or_close (false, s) f = (false, close_socket s)

  abbrev pub or_return : Bool × Server N → (Server N → Bool × Server N) → Bool × Server N
  or_return (true, s) f = f s
  or_return (false, s) f = (false, s)

  -- The end of start
  abbrev pub launched : Server N → Bool × Server N
  launched s =
      (true, record s { running = true; should_stop = false; accept_thread = some testing })

  -- TcpServer::start
  unfoldable pub start : Options → Server N → Bool × Server N
  unfolding create_socket bind_socket listen_socket close_socket
  start opts s =
      if s.running
      then (false, s)
      else or_return (create_socket s)
          λ s₁. or_close (bind_socket opts s₁) λ s₂. or_close (listen_socket opts s₂) launched
