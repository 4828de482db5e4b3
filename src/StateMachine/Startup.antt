-- ===== src/StateMachine/Startup.antt =====
-- StateMachine::init and shutdown of src/state_machine.cc. braft, brpc and butil are an interface over the
-- world of the operating system; their objects have handles.
use diarkis.Base.{ℕ, Option, none, some, Bool, not, [], ◌++◌, Bytes, text, if◌then◌else◌}
use diarkis.Base.Int.{ℤ}
use diarkis.Error.{
  Error, VoidResult, void_ok, fail, result_ok, io_error, network_error, invalid_command,
}
use diarkis.Path.{drop_last_slashes}
use diarkis.Posix.{Posix}
use diarkis.Storage.Monad.{Storage, Run, ends, blocks, spins}
use diarkis.Storage.Entries.{init}
use diarkis.Config.Startup.{Options, validate_options}

-- What init_raft_node fills of braft::NodeOptions; the addresses are the directories behind `local://`.
pub record NodeOptions : Type 0 where
  pub initial_conf : Bytes
  pub election_timeout_ms : ℤ
  pub snapshot_interval_s : ℤ
  pub log_uri : Bytes
  pub raft_meta_uri : Bytes
  pub snapshot_uri : Bytes

-- butil::CreateDirectory and FilePath::Append; brpc::Server, braft::add_service, Start, and Stop with Join;
-- Configuration::parse_from; braft::Node, init, shutdown with join, and the destructor.
pub record Services (W : Type 0) : Type 0 where
  pub append : Bytes → Bytes → Bytes
  pub create_directory : Bytes → W → Bool × W
  pub new_server : W → ℕ × W
  pub add_service : ℕ → Bytes → W → Bool × W
  pub start_server : ℕ → Bytes → W → Bool × W
  pub stop_server : ℕ → W → W
  pub is_configuration : Bytes → Bool
  pub new_node : Bytes → Bytes → W → ℕ × W
  pub init_node : ℕ → NodeOptions → W → Bool × W
  pub delete_node : ℕ → W → W
  pub shutdown_node : ℕ → W → W

-- A StateMachine and the world; `storage` is the base path of the Storage that storage_ points to.
pub record StateMachine (W : Type 0) : Type 0 where
  pub options : Options
  pub peer_id : Bytes
  pub storage : Option Bytes
  pub brpc_server : Option ℕ
  pub raft_node : Option ℕ
  pub world : W

-- The errors of init
abbrev pub no_options : Error
no_options = record { code = invalid_command; message = text "Invalid StateMachine options" }

abbrev pub no_directories : Error
no_directories = record { code = io_error; message = text "Failed to create Raft directories" }

abbrev pub no_service : Error
no_service = record { code = io_error; message = text "Failed to add Raft service" }

abbrev pub no_server : Error
no_server = record { code = network_error; message = text "Failed to start bRPC server" }

abbrev pub no_configuration : Error
no_configuration = record { code = invalid_command; message = text "Invalid initial configuration" }

abbrev pub no_node : Error
no_node = record { code = io_error; message = text "Failed to initialize Raft node" }

-- What a part of init does.
abbrev pub Init : Type 0 → Type 0
Init W = StateMachine W → Run (VoidResult × StateMachine W)

module _ {W : Type 0} where
  -- StateMachine::StateMachine
  abbrev pub new_state_machine : Options → Bytes → W → StateMachine W
  new_state_machine options peer_id w = record {
    options = options;
    peer_id = peer_id;
    storage = none;
    brpc_server = none;
    raft_node = none;
    world = w;
  }

  abbrev pub done : Init W
  done s = ends (void_ok, s)

  abbrev pub failing : Error → Init W
  failing e s = ends (fail e, s)

  -- if (!result.ok()) return result
  abbrev pub then_if_ok :
      Run (VoidResult × StateMachine W) → Init W → Run (VoidResult × StateMachine W)
  then_if_ok (ends (result, s)) k = if result_ok result then k s else ends (result, s)
  then_if_ok blocks k = blocks
  then_if_ok spins k = spins

  -- A call on the world, and what follows it.
  abbrev pub calling : {A : Type 0} → (W → A × W) → (A → Init W) → Init W
  calling f k s = let (a, w) = f s.world in k a (record s { world = w })

  abbrev stored : StateMachine W → Run (VoidResult × Storage W) → Run (VoidResult × StateMachine W)
  stored s (ends (result, t)) =
      ends (result, record s { storage = some t.base_path; world = t.world })
  stored s blocks = blocks
  stored s spins = spins

module _ {W : Type 0} (os : Posix W) (services : Services W) where
  open services use {
    append, create_directory, new_server, add_service, start_server, stop_server, is_configuration,
    new_node, init_node, delete_node, shutdown_node,
  }

  -- StateMachine::init_storage, with Storage::Storage
  unfoldable pub init_storage : Init W
  init_storage s = stored s (
      init os (record {
        base_path = drop_last_slashes s.options.base_path;
        file_locker = [];
        world = s.world;
      }))

  -- StateMachine::init_raft_directories
  unfoldable pub init_raft_directories : Init W
  init_raft_directories s =
      calling (create_directory (append s.options.raft_path (text "log")))
        (λ log.
          if not log
          then failing no_directories
          else calling (create_directory (append s.options.raft_path (text "raft_meta"))) λ meta.
            if not meta
            then failing no_directories
            else calling (create_directory (append s.options.raft_path (text "snapshot")))
                λ snapshot. if not snapshot then failing no_directories else done)
        s

  -- StateMachine::init_brpc_server
  unfoldable pub init_brpc_server : Init W
  init_brpc_server s =
      calling new_server
        (λ h s₁.
          calling (add_service h s.peer_id)
            (λ added.
              if not added
              then failing no_service
              else calling (start_server h s.peer_id)
                  λ started. if not started then failing no_server else done)
            (record s₁ { brpc_server = some h }))
        s

  abbrev pub node_options : Options → NodeOptions
  node_options o = record {
    initial_conf = o.initial_conf;
    election_timeout_ms = o.election_timeout_ms;
    snapshot_interval_s = o.snapshot_interval_s;
    log_uri = text "local://" ++ append o.raft_path (text "log");
    raft_meta_uri = text "local://" ++ append o.raft_path (text "raft_meta");
    snapshot_uri = text "local://" ++ append o.raft_path (text "snapshot");
  }

  -- StateMachine::init_raft_node
  unfoldable pub init_raft_node : Init W
  init_raft_node s =
      if not (is_configuration s.options.initial_conf)
      then failing no_configuration s
      else calling (new_node s.options.group_id s.peer_id)
          (λ h. calling (init_node h (node_options s.options)) λ initialised s₁.
            if not initialised
            then failing no_node (record s₁ { raft_node = none; world = delete_node h s₁.world })
            else done (record s₁ { raft_node = some h }))
          s

  -- StateMachine::init
  unfoldable pub init_state_machine : Init W
  unfolding init_storage init_raft_directories init_brpc_server init_raft_node
  init_state_machine s =
      if not (validate_options s.options)
      then failing no_options s
      else then_if_ok (init_storage s) λ s₁.
        then_if_ok (init_raft_directories s₁) λ s₂. then_if_ok (init_brpc_server s₂) init_raft_node

  abbrev stop_node : Option ℕ → StateMachine W → StateMachine W
  stop_node (some h) s = record s { raft_node = none; world = shutdown_node h s.world }
  stop_node none s = s

  abbrev stop_brpc : Option ℕ → StateMachine W → StateMachine W
  stop_brpc (some h) s = record s { brpc_server = none; world = stop_server h s.world }
  stop_brpc none s = s

  -- StateMachine::shutdown
  unfoldable pub shutdown : StateMachine W → StateMachine W
  shutdown s = let s₁ = stop_node s.raft_node s in stop_brpc s₁.brpc_server s₁
