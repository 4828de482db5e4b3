-- ===== src/Main.antt =====
-- src/main.cc: from the configuration to the running server, and its end. The RPC server
-- is the TcpServer that RpcServer::start and stop hand on to; what its threads do until a stop is over is
-- given to main. A tick of the wait loop is given by the signals that arrive in it.
pub mod Released
mod Examples
use diarkis.Base.{
  ℕ, ◌==◌, ◌||◌, Option, none, some, Bool, true, false, List, [], ◌∷◌, ◌++◌, Bytes, text, same,
  if◌then◌else◌,
}
use diarkis.Error.{Error, VoidResult, Result, value, failure, result_ok, invalid_command}
use diarkis.Posix.{Posix}
use diarkis.Storage.Monad.{Run, ends, blocks, spins}
use diarkis.Config.{ServerConfig, Flags}
use diarkis.Config.Yaml.{Yaml}
use diarkis.Config.Startup.{load_configuration, state_machine_options}
use diarkis.TcpServer.{Listener, Server, rpc_options, new_server, start}
use diarkis.StateMachine.Startup.{
  Services, StateMachine, new_state_machine, init_state_machine, shutdown,
}

-- spdlog::level
pub data LogLevel : Type 0 where
  trace debug info warn err critical : LogLevel

-- The level that setup_logging sets
unfoldable pub log_level : Bytes → LogLevel
log_level level =
    if same level (text "trace")
    then trace
    else if same level (text "debug")
    then debug
    else if same level (text "info")
    then info
    else if same level (text "warn")
    then warn
    else if same level (text "error")
    then err
    else if same level (text "critical")
    then critical
    else info

-- signal_handler, on g_running; SIGINT is 2 and SIGTERM 15.
abbrev pub signal_handler : ℕ → Bool → Bool
signal_handler signum g_running = if signum == 2 || signum == 15 then false else g_running

abbrev pub handle_all : List ℕ → Bool → Bool
handle_all [] g_running = g_running
handle_all (signum ∷ signals) g_running = handle_all signals (signal_handler signum g_running)

-- The main loop: whether it is left within these ticks
unfoldable pub wait : Bool → List (List ℕ) → Bool
wait false ticks = true
wait true [] = false
wait true (signals ∷ ticks) = wait (handle_all signals true) ticks

-- braft::PeerId::parse; the calls on the RPC server's listening socket; and the server that the threads of
-- one that was started have come to when a call of stop is over.
pub record Calls (W : Type 0) : Type 0 where
  pub is_peer : Bytes → Bool
  pub listener : Listener W
  pub until_stopped : Server W → Server W

-- What initialize_state_machine leaves: g_state_machine, or an error.
pub data Begun (W : Type 0) : Type 0 where
  begun : StateMachine W → Begun W
  refused : Error → W → Begun W

-- The process has ended with a status, and with the RPC server as its destructor finds it, if it was
-- started; or it still waits in the main loop.
pub data Process (W : Type 0) : Type 0 where
  exited : ℕ → Option (Server W) → W → Process W
  waiting : Server W → StateMachine W → Process W

module _ {W : Type 0} (os : Posix W) (services : Services W) (calls : Calls W) where
  open calls use {is_peer, listener, until_stopped}

  -- The rest of initialize_state_machine behind init; the destructor calls shutdown.
  abbrev pub kept_if_ok : Run (VoidResult × StateMachine W) → Run (Begun W)
  kept_if_ok (ends (result, s)) =
      if result_ok result
      then ends (begun s)
      else let s' = shutdown os services s in ends (refused result.error s'.world)
  kept_if_ok blocks = blocks
  kept_if_ok spins = spins

  -- initialize_state_machine
  unfoldable pub initialize_state_machine : ServerConfig → W → Run (Begun W)
  unfolding init_state_machine shutdown
  initialize_state_machine config w =
      if is_peer config.peer_addr
      then kept_if_ok (
          init_state_machine os services
            (new_state_machine (state_machine_options config) config.peer_addr w))
      else ends (
          refused
            (record {
              code = invalid_command;
              message = text "Failed to parse peer address: " ++ config.peer_addr;
            })
            w)

  abbrev pub kept_if_started : Bool × Server W → Option (Server W) × W
  kept_if_started (true, r) = (some r, r.network)
  kept_if_started (false, r) = (none, r.network)

  -- initialize_rpc_server; `none` is its error.
  abbrev pub initialize_rpc_server : ServerConfig → W → Option (Server W) × W
  initialize_rpc_server config w =
      kept_if_started (start listener (rpc_options config.rpc_addr config.rpc_port) (new_server w))

  -- g_rpc_server behind its stop, and the world.
  abbrev pub stop_server : Option (Server W) → W → Option (Server W) × W
  stop_server (some r) w = let r' = until_stopped r in (some r', r'.network)
  stop_server none w = (none, w)

  -- shutdown_server; the second shutdown is the destructor's.
  unfoldable pub shutdown_server : Option (Server W) → StateMachine W → Option (Server W) × W
  unfolding shutdown
  shutdown_server rpc s =
      let (rpc', w) = stop_server rpc s.world in
      let s' = shutdown os services (shutdown os services (record s { world = w })) in
      (rpc', s'.world)

  abbrev pub exit_with : ℕ → Option (Server W) × W → Process W
  exit_with status (rpc, w) = exited status rpc w

  -- The end of main, from initialize_rpc_server on
  abbrev pub serving : Bool → List (List ℕ) → Option (Server W) × W → StateMachine W → Process W
  serving g_running ticks (none, w) s = exit_with 1 (shutdown_server none (record s { world = w }))
  serving g_running ticks (some r, w) s =
      let s' = record s { world = w } in
      if wait g_running ticks then exit_with 0 (shutdown_server (some r) s') else waiting r s'

  abbrev pub with_state_machine :
      ServerConfig → Bool → List (List ℕ) → Run (Begun W) → Run (Process W)
  with_state_machine config g_running ticks (ends (begun s)) =
      ends (serving g_running ticks (initialize_rpc_server config s.world) s)
  with_state_machine config g_running ticks (ends (refused e w)) = ends (exited 1 none w)
  with_state_machine config g_running ticks blocks = blocks
  with_state_machine config g_running ticks spins = spins

  abbrev pub configured : Bool → List (List ℕ) → Result ServerConfig → W → Run (Process W)
  configured g_running ticks (failure e) w = ends (exited 1 none w)
  configured g_running ticks (value config) w =
      with_state_machine config g_running ticks (initialize_state_machine config w)

  -- main; `early` are the signals that arrive before the main loop.
  unfoldable pub main :
      {Node : Type 0} → Yaml Node → Bytes → Flags → List ℕ → List (List ℕ) → W → Run (Process W)
  unfolding load_configuration initialize_state_machine shutdown_server wait
  main yaml path flags early ticks w =
      configured (handle_all early true) ticks (load_configuration yaml path flags) w
