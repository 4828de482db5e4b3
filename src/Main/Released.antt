-- ===== src/Main/Released.antt =====
-- What the server process leaves behind.
use diarkis.Base.{
  ℕ, Option, none, some, Bool, true, false, List, ◌∷◌, Bytes, ◌≡◌, refl, ◌∙◌, ap, inl, inr,
  Bool-cases, mem, ◌||◌, ◌&&◌, not, [], arith,
}
use diarkis.Error.{VoidResult, Result, value, failure, result_ok}
use diarkis.Posix.{Posix}
use diarkis.Storage.Monad.{Run, ends, blocks, spins}
use diarkis.Config.{ServerConfig, Flags}
use diarkis.Config.Yaml.{Yaml}
use diarkis.Config.Startup.{load_configuration, state_machine_options}
use diarkis.TcpServer.{Options, Server, idle, new_server, rpc_options, start}
use diarkis.TcpServer
use diarkis.TcpServer.Starting.{ListenerLaws, Started, start-Started}
use diarkis.TcpServer.Starting
use diarkis.TcpServer.Steps.{Reach, fresh, next, start_called}
use diarkis.TcpServer.Invariant
use diarkis.TcpServer.Running.{
  JustStarted, Keeps, InStop, InStop-Released, InStop-keeps, start-keeps,
}
use diarkis.StateMachine.Startup.{
  Services, StateMachine, new_state_machine, init_state_machine, shutdown,
}
use diarkis.StateMachine.Releasing.Laws.{ServiceLaws}
use diarkis.StateMachine.Releasing.Parts.{Owned, Held, is_there}
use diarkis.StateMachine.Releasing.{Idle, Owned-Idle, init_state_machine-Held}
use diarkis.Main.{
  Calls, Begun, begun, refused, Process, exited, waiting, signal_handler, handle_all, wait,
  kept_if_ok, kept_if_started, initialize_rpc_server, initialize_state_machine, stop_server,
  shutdown_server, serving, with_state_machine, configured, main,
}

-- What main relies on of the RPC server's calls: those on the listening socket neither start nor stop what
-- is `live`, and `until_stopped` is where an interleaving of the server's threads leads, through a
-- call of stop that has returned.
pub record CallLaws {W : Type 0} (calls : Calls W) (live : W → List ℕ) : Type 0 where
  pub listener_laws : ListenerLaws calls.listener
  pub kept : (xs : List ℕ) → Keeps calls.listener (λ w. live w ≡ xs)
  pub interleaved :
      (opts : Options) (s : Server W)
      → JustStarted s
      → InStop calls.listener opts s (calls.until_stopped s)
        × ((calls.until_stopped s).owner ≡ idle)

-- SIGINT or SIGTERM is among the signals.
abbrev pub is_ended : List ℕ → Bool
is_ended signals = mem 2 signals || mem 15 signals

abbrev pub is_ended_in : List (List ℕ) → Bool
is_ended_in [] = false
is_ended_in (signals ∷ ticks) = is_ended signals || is_ended_in ticks

handle_all-is_ended :
    (signals : List ℕ) (g : Bool) → handle_all signals g ≡ (g && not (is_ended signals))
handle_all-is_ended [] g = elim (Bool-cases g) [ inl up ↦ ground arith | inr off ↦ ground arith ]
handle_all-is_ended (x ∷ signals) g = elim (Bool-cases g) [
  | inl up ↦ ground (arith, handle_all-is_ended signals (signal_handler x g))
  | inr off ↦ ground (arith, handle_all-is_ended signals (signal_handler x g))
]

wait-is_ended_in : (g : Bool) (ticks : List (List ℕ)) → wait g ticks ≡ (not g || is_ended_in ticks)
unfolding wait
wait-is_ended_in false ticks = ground arith
wait-is_ended_in true [] = refl
wait-is_ended_in true (signals ∷ ticks) =
    wait-is_ended_in (handle_all signals true) ticks
    ∙ ground (arith, handle_all-is_ended signals true)

module _ {W : Type 0} (os : Posix W) (services : Services W) (calls : Calls W)
    (laws : ServiceLaws os services) (rpc_laws : CallLaws calls laws.live) where
  open laws use {live}

  -- How main goes on: it has failed to start; or it was started, and then ended by a signal; or it was
  -- started, and no signal has come to end it.
  pub data Released (w₀ : W) (early : List ℕ) (ticks : List (List ℕ))
      : Run (Process W) → Type 0 where
    not_started : {w : W} → live w ≡ live w₀ → Released w₀ early ticks (ends (exited 1 none w))
    ended :
        {r : Server W} {w : W}
        → is_ended early || is_ended_in ticks ≡ true
        → TcpServer.Invariant.Released r
        → live w ≡ live w₀
        → Released w₀ early ticks (ends (exited 0 (some r) w))
    runs :
        {r : Server W} {s : StateMachine W} (h n : ℕ)
        → is_ended early || is_ended_in ticks ≡ false
        → JustStarted r
        → live s.world ≡ n ∷ h ∷ live w₀
        → Released w₀ early ticks (ends (waiting r s))

  -- What a state machine holds beside the world `w₀`.
  abbrev Keeping : W → StateMachine W → List ℕ → Type 0
  Keeping w₀ s xs = Owned os services laws w₀ s.brpc_server s.raft_node xs

  shut-Idle :
      (w₀ : W) (s : StateMachine W)
      → Keeping w₀ s (live s.world)
      → Idle os services laws w₀ (shutdown os services (shutdown os services s))
  shut-Idle w₀ s k =
      let once = Owned-Idle os services laws w₀ s.brpc_server s.raft_node s refl refl k in
      Owned-Idle os services laws w₀ none none (shutdown os services s) once.0 once.1 once.2

  shutdown_server-live :
      (w₀ : W) (rpc : Option (Server W)) (s : StateMachine W)
      → Keeping w₀ s (live (stop_server os services calls rpc s.world).1)
      → live (shutdown_server os services calls rpc s).1 ≡ live w₀
  unfolding shutdown_server
  shutdown_server-live w₀ rpc s k =
      (shut-Idle w₀ (record s { world = (stop_server os services calls rpc s.world).1 }) k).2

  -- What initialize_state_machine leaves: a state machine that can give back what it holds, or nothing.
  BegunOk : W → Run (Begun W) → Type 0
  BegunOk w₀ (ends (begun s)) =
      Keeping w₀ s (live s.world) × (true ≡ is_there os services laws s.raft_node)
  BegunOk w₀ (ends (refused e w)) = live w ≡ live w₀
  BegunOk w₀ blocks = ⊥
  BegunOk w₀ spins = ⊥

  kept_if_ok-BegunOk :
      (w₀ : W) (r : Run (VoidResult × StateMachine W))
      → Held os services laws w₀ r
      → BegunOk w₀ (kept_if_ok os services calls r)
  unfolding BegunOk
  kept_if_ok-BegunOk w₀ (ends (result, s)) (owned, ok) = elim (Bool-cases (result_ok result)) [
    | inl good ↦ rw good (owned, ground (arith, good, ok))
    | inr bad ↦
        rw bad ((Owned-Idle os services laws w₀ s.brpc_server s.raft_node s refl refl owned).2)
  ]
  kept_if_ok-BegunOk w₀ blocks h = h
  kept_if_ok-BegunOk w₀ spins h = h

  initialize_state_machine-BegunOk :
      (config : ServerConfig) (w : W)
      → BegunOk w (initialize_state_machine os services calls config w)
  unfolding initialize_state_machine BegunOk
  initialize_state_machine-BegunOk config w = elim (Bool-cases (calls.is_peer config.peer_addr)) [
    | inr bad ↦ rw bad refl
    | inl good ↦
        let s = new_state_machine (state_machine_options config) config.peer_addr w in
        rw good (
          kept_if_ok-BegunOk w (init_state_machine os services s)
            (init_state_machine-Held os services laws w s (refl, refl, refl)))
  ]

  -- A state machine with a node has two that are live.
  Keeping-live :
      (w₀ : W) (s : StateMachine W) (xs : List ℕ)
      → Keeping w₀ s xs
      → true ≡ is_there os services laws s.raft_node
      → (h : ℕ) × ((n : ℕ) × (xs ≡ n ∷ h ∷ live w₀))
  Keeping-live w₀ s xs k is = go s.brpc_server s.raft_node k is
    where
      go :
          (b r : Option ℕ)
          → Owned os services laws w₀ b r xs
          → true ≡ is_there os services laws r
          → (h : ℕ) × ((n : ℕ) × (xs ≡ n ∷ h ∷ live w₀))
      go b none k is = ground arith
      go none (some n) k is = elim k [ ]
      go (some h) (some n) (new, new', more) is = (h, (n, more))

  -- A started RPC server: new, reached, and over the same that is live.
  abbrev Ready : Options → W → Option (Server W) × W → Type 0
  Ready opts w (none, w') = live w' ≡ live w
  Ready opts w (some r, w') =
      JustStarted r × Reach calls.listener opts r × (live w' ≡ live w) × (r.network ≡ w')

  start-Ready :
      (opts : Options) (w : W)
      → Ready opts w (kept_if_started os services calls (start calls.listener opts (new_server w)))
  start-Ready opts w =
      go (start calls.listener opts (new_server w))
        (start-Started calls.listener rpc_laws.listener_laws opts (new_server w) refl)
        (start-keeps calls.listener opts (λ x. live x ≡ live w) (rpc_laws.kept (live w))
          (new_server w) refl)
        (next (fresh w) (start_called refl))
    where
      go :
          (r : Bool × Server W)
          → Started calls.listener rpc_laws.listener_laws opts (new_server w) r
          → live r.1.network ≡ live w
          → Reach calls.listener opts r.1
          → Ready opts w (kept_if_started os services calls r)
      go r (TcpServer.Starting.runs fd w' held hears) same reached = (
        record {
          running = refl;
          accepting = refl;
          no_threads = refl;
          none_active = refl;
          none_connected = refl;
          outside = refl;
        },
        reached,
        same,
        refl,
      )
      go r (TcpServer.Starting.fails w' held) same reached = same

  serving-Released :
      (w₀ : W) (opts : Options) (early : List ℕ) (ticks : List (List ℕ)) (s : StateMachine W)
      (x : Option (Server W) × W)
      → Ready opts s.world x
      → Keeping w₀ s (live s.world)
      → true ≡ is_there os services laws s.raft_node
      → Released w₀ early ticks (ends (serving os services calls (handle_all early true) ticks x s))
  unfolding shutdown_server
  serving-Released w₀ opts early ticks s (none, w) same k is =
      not_started (shutdown_server-live w₀ none (record s { world = w }) (rw same k))
  serving-Released w₀ opts early ticks s (some r, w) (new, reached, same, net) k is =
      let (i, over) = rpc_laws.interleaved opts r new in
      let back : live (calls.until_stopped r).network ≡ live s.world =
        InStop-keeps calls.listener opts (λ x. live x ≡ live s.world) (rpc_laws.kept (live s.world))
          r (calls.until_stopped r) i (ap live net ∙ same) in
      let loop = wait-is_ended_in (handle_all early true) ticks in
      let signals = handle_all-is_ended early true in
      elim (Bool-cases (wait (handle_all early true) ticks)) [
        | inl is_over ↦ rw is_over (
            ended (ground (arith, loop, signals, is_over))
              (InStop-Released calls.listener opts rpc_laws.listener_laws r (calls.until_stopped r)
                reached i over)
              (shutdown_server-live w₀ (some r) (record s { world = w }) (rw back k)))
        | inr on ↦
            let (h, (n, more)) = Keeping-live w₀ s (live s.world) k is in
            rw on (runs h n (ground (arith, loop, signals, on)) new (same ∙ more))
      ]

  with_state_machine-Released :
      (w₀ : W) (config : ServerConfig) (early : List ℕ) (ticks : List (List ℕ)) (r : Run (Begun W))
      → BegunOk w₀ r
      → Released w₀ early ticks
          (with_state_machine os services calls config (handle_all early true) ticks r)
  unfolding BegunOk
  with_state_machine-Released w₀ config early ticks (ends (begun s)) (k, is) =
      serving-Released w₀ (rpc_options config.rpc_addr config.rpc_port) early ticks s
        (initialize_rpc_server os services calls config s.world)
        (start-Ready (rpc_options config.rpc_addr config.rpc_port) s.world) k is
  with_state_machine-Released w₀ config early ticks (ends (refused e w)) h = not_started h
  with_state_machine-Released w₀ config early ticks blocks h = elim h [ ]
  with_state_machine-Released w₀ config early ticks spins h = elim h [ ]

  -- Over services and socket calls that meet the laws, where the RPC server's threads interleave
  -- through a stop that returns: main ends with status 1 and without an RPC server that was
  -- started; or SIGINT or SIGTERM has come and it ends with status 0, and the RPC server has no
  -- socket, thread or active connection; or neither has come and it waits, with the RPC server as
  -- start left it and a server and a node more that are live. At both ends what is live is what
  -- was live before.
  pub main-Released :
      {Node : Type 0} (yaml : Yaml Node) (path : Bytes) (flags : Flags) (early : List ℕ)
      (ticks : List (List ℕ)) (w : W)
      → Released w early ticks (main os services calls yaml path flags early ticks w)
  unfolding main
  main-Released yaml path flags early ticks w = go (load_configuration yaml path flags)
    where
      go :
          (config : Result ServerConfig)
          → Released w early ticks
              (configured os services calls (handle_all early true) ticks config w)
      go (failure e) = not_started refl
      go (value config) =
          with_state_machine-Released w config early ticks
            (initialize_state_machine os services calls config w)
            (initialize_state_machine-BegunOk config w)
