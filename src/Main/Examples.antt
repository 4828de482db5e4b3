-- ===== src/Main/Examples.antt =====
-- A server that is started from the defaults, and ended by SIGTERM.
use diarkis.Base.{
  ℕ, Option, none, some, Bool, true, false, List, [], ◌∷◌, ◌≡◌, refl, mem, without, erase_first,
  arith,
}
use mathlib.Core.Path.{subst}
use diarkis.Base.Int.{ℤ, pos, negsuc}
use diarkis.Config.{Flags}
use diarkis.Config.Yaml.{Yaml, returns, throws}
use diarkis.StateMachine.Local.{World, offline, local, services, service_laws}
use diarkis.TcpServer.{Options, Listener, Server, testing, idle, close_socket}
use diarkis.TcpServer.Starting.{ListenerLaws}
use diarkis.TcpServer.Steps.{
  listener_closed, tested, accept_joined, cleanup_begun, cleanup_ended, threads_joined,
}
use diarkis.TcpServer.Running.{JustStarted, InStop, now, called, further}
use diarkis.Main.{Calls, main}
use diarkis.Main.Released.{CallLaws, Released, main-Released}

abbrev no_files : Yaml ℕ
no_files = record {
  load_file = λ path. throws [];
  child = λ node key. returns none;
  as_string = λ node. throws [];
  as_int = λ node. throws [];
  as_uint16 = λ node. throws [];
}

abbrev flags : Flags
flags = record {
  base_path = [];
  raft_path = [];
  group_id = [];
  peer_addr = [];
  initial_conf = [];
  election_timeout = pos 0;
  snapshot_interval = negsuc 0;
  rpc_addr = 0x61 ∷ [];
  rpc_port = pos 80;
}

-- Every call on a socket succeeds.
abbrev listener : Listener World
listener = record {
  open_socket = λ w. (some 3, record w { descriptors = 3 ∷ w.descriptors });
  set_reuse = λ fd w. w;
  is_address = λ address. true;
  bind_to = λ fd address port w. (true, w);
  listen_on = λ fd backlog w. (true, record w { listening = fd ∷ w.listening });
  shutdown_socket = λ fd w. w;
  close_fd = λ fd w. record w {
    descriptors = erase_first fd w.descriptors;
    listening = without fd w.listening;
  };
}

opened :
    (fd : ℕ) (w w' : World)
    → listener.open_socket w ≡ (some fd, w')
    → w'.descriptors ≡ fd ∷ w.descriptors
opened fd w w' e = ground arith

not_opened : (w w' : World) → listener.open_socket w ≡ (none, w') → w'.descriptors ≡ w.descriptors
not_opened w w' e = ground arith

made_listen :
    (fd : ℕ) (backlog : ℤ) (w w' : World)
    → listener.listen_on fd backlog w ≡ (true, w')
    → mem fd w'.listening ≡ true
made_listen fd backlog w w' e = ground arith

abbrev listener_laws : ListenerLaws listener
listener_laws = record {
  descriptors = λ w. w.descriptors;
  listens = λ fd w. mem fd w.listening;
  opened = opened;
  not_opened = not_opened;
  reuse_set = λ fd w. refl;
  bound = λ fd port address w. refl;
  listening = λ fd backlog w. refl;
  made_listen = made_listen;
  shut_down = λ fd w. refl;
  closed = λ fd w. refl;
}

-- No client connects; and then stop is called.
abbrev until_stopped : Server World → Server World
until_stopped s =
    let closed = close_socket listener s in
    record s {
      server_fd = none;
      running = false;
      should_stop = true;
      accept_thread = none;
      connection_threads = [];
      active_connections = [];
      owner = idle;
      network = closed.network;
    }

abbrev calls : Calls World
calls = record { is_peer = λ text. true; listener = listener; until_stopped = until_stopped }

abbrev started : Option ℕ → Bool → List ℕ → ℕ → World → Server World
started fd should_stop sockets next_conn w = record {
  server_fd = fd;
  running = true;
  should_stop = should_stop;
  accept_thread = some testing;
  connection_threads = [];
  active_connections = [];
  connected = [];
  sockets = sockets;
  next_conn = next_conn;
  owner = idle;
  network = w;
}

abbrev Stopping : Options → Server World → Type 0
Stopping opts s = InStop listener opts s (until_stopped s) × ((until_stopped s).owner ≡ idle)

stops :
    (opts : Options) (fd : Option ℕ) (should_stop : Bool) (sockets : List ℕ) (next_conn : ℕ)
    (w : World)
    → Stopping opts (started fd should_stop sockets next_conn w)
unfolding close_socket
stops opts none should_stop sockets next_conn w = (
  further
      (further
        (further
          (further
            (further (further (called now refl) (λ e. ground arith) (listener_closed refl))
              (λ e. ground arith) (tested refl))
            (λ e. ground arith) (accept_joined refl refl))
          (λ e. ground arith) (cleanup_begun refl))
        (λ e. ground arith) (cleanup_ended refl))
      (λ e. ground arith) (threads_joined refl refl),
  refl,
)
stops opts (some fd) should_stop sockets next_conn w = (
  further
      (further
        (further
          (further
            (further (further (called now refl) (λ e. ground arith) (listener_closed refl))
              (λ e. ground arith) (tested refl))
            (λ e. ground arith) (accept_joined refl refl))
          (λ e. ground arith) (cleanup_begun refl))
        (λ e. ground arith) (cleanup_ended refl))
      (λ e. ground arith) (threads_joined refl refl),
  refl,
)

interleaved : (opts : Options) (s : Server World) → JustStarted s → Stopping opts s
interleaved opts s new =
    let same : started s.server_fd s.should_stop s.sockets s.next_conn s.network ≡ s = ground (
      arith, new.running, new.accepting, new.no_threads, new.none_active, new.none_connected,
      new.outside,
    ) in
    subst (Stopping opts) same
      (stops opts s.server_fd s.should_stop s.sockets s.next_conn s.network)

abbrev call_laws : CallLaws calls service_laws.live
call_laws = record {
  listener_laws = listener_laws;
  kept = λ xs. record {
    opening = λ w h. h;
    reusing = λ fd w h. h;
    binding = λ fd port address w h. h;
    listening = λ fd backlog w h. h;
    shutting = λ fd w h. h;
    closing = λ fd w h. h;
  };
  interleaved = interleaved;
}

main-Released_example :
    Released local services calls service_laws call_laws
      (offline (7 ∷ []))
      []
      ([] ∷ (15 ∷ []) ∷ [])
      (main local services calls no_files [] flags [] ([] ∷ (15 ∷ []) ∷ []) (offline (7 ∷ [])))
main-Released_example =
    main-Released local services calls service_laws call_laws no_files [] flags []
      ([] ∷ (15 ∷ []) ∷ []) (offline (7 ∷ []))
