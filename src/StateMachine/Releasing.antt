-- ===== src/StateMachine/Releasing.antt =====
-- StateMachine::shutdown gives back what StateMachine::init has started, wherever that has stopped.
pub mod Laws
pub mod Parts
use diarkis.Base.{
  ℕ, Option, none, some, Bool, true, false, not, List, [], ◌∷◌, Bytes, text, ◌≡◌, refl, sym, ◌∙◌,
  ap, ◌⊎◌, inl, inr, Bool-cases, arith, mem, without, if◌then◌else◌,
}
use diarkis.Error.{VoidResult, result_ok, error_ok, void_ok, fail, Error}
use diarkis.Path.{drop_last_slashes}
use diarkis.Posix.{Posix}
use diarkis.Posix.Laws.{Outcome-cases}
use diarkis.Storage.Monad.{Storage, Run, ends, blocks, spins}
use diarkis.Storage.Entries.{init}
use diarkis.Storage.Scope.{dir_mode}
use diarkis.Config.Startup.{Options, validate_options}
use diarkis.StateMachine.Startup.{
  NodeOptions, Services, StateMachine, Init, new_state_machine, then_if_ok, init_storage,
  init_raft_directories, init_brpc_server, init_raft_node, init_state_machine, shutdown, no_service,
  no_server, no_configuration, no_node, no_options, node_options,
}
use diarkis.StateMachine.Releasing.Laws.{ServiceLaws, without-none, without-head}
use diarkis.StateMachine.Releasing.Parts.{
  Before, Unstarted, Owned, is_there, Held, Serving, init_storage-Unstarted,
  init_raft_directories-Unstarted, init_brpc_server-Serving, init_raft_node-Held,
}

module _ {W : Type 0} (os : Posix W) (services : Services W) (laws : ServiceLaws os services) where
  open laws use {live}

  Serving-Held :
      (w₀ : W) (r : Run (VoidResult × StateMachine W))
      → Serving os services laws w₀ r
      → Held os services laws w₀ (then_if_ok r (init_raft_node os services))
  Serving-Held w₀ (ends (result, s)) (no_node_yet, (h, (serving, fresh, inl (ok, holds)))) =
      rw ok (init_raft_node-Held os services laws w₀ h s no_node_yet serving fresh holds)
  Serving-Held w₀ (ends (result, s)) (no_node_yet, (h, (serving, fresh, inr (bad, holds)))) =
      rw bad (rw serving (rw no_node_yet ((fresh, inl holds), bad)))
  Serving-Held w₀ blocks h = h
  Serving-Held w₀ spins h = h

  -- A part of init that starts nothing, and the rest of init.
  Unstarted-Held :
      (w₀ : W) (r : Run (VoidResult × StateMachine W)) (k : Init W)
      → Unstarted os services laws w₀ r
      → ((s : StateMachine W) → Before os services laws w₀ s → Held os services laws w₀ (k s))
      → Held os services laws w₀ (then_if_ok r k)
  Unstarted-Held w₀ (ends (result, s)) k b rest = elim (Bool-cases (result_ok result)) [
    | inl ok ↦ rw ok (rest s b)
    | inr bad ↦ rw bad (rw b.0 (rw b.1 (b.2, bad)))
  ]
  Unstarted-Held w₀ blocks k h rest = h
  Unstarted-Held w₀ spins k h rest = h

  pub init_state_machine-Held :
      (w₀ : W) (s : StateMachine W)
      → Before os services laws w₀ s
      → Held os services laws w₀ (init_state_machine os services s)
  unfolding init_state_machine result_ok error_ok
  init_state_machine-Held w₀ s b = elim (Bool-cases (validate_options s.options)) [
    | inr bad ↦
        let run : init_state_machine os services s ≡ ends (fail no_options, s) = ground arith in
        rw run (rw b.0 (rw b.1 (b.2, refl)))
    | inl good ↦ rw good (
        Unstarted-Held w₀ (init_storage os services s) _
          (init_storage-Unstarted os services laws w₀ s b)
          λ s₁ b₁.
            Unstarted-Held w₀ (init_raft_directories os services s₁) _
              (init_raft_directories-Unstarted os services laws w₀ s₁ b₁)
              λ s₂ b₂.
                Serving-Held w₀ (init_brpc_server os services s₂)
                  (init_brpc_server-Serving os services laws w₀ s₂ b₂))
  ]

  -- The state machine has no server and no node, and what is live is what was in the world `w₀`.
  abbrev pub Idle : W → StateMachine W → Type 0
  Idle w₀ s = (s.brpc_server ≡ none) × (s.raft_node ≡ none) × (live s.world ≡ live w₀)

  pub Owned-Idle :
      (w₀ : W) (b r : Option ℕ) (s : StateMachine W)
      → s.brpc_server ≡ b
      → s.raft_node ≡ r
      → Owned os services laws w₀ b r (live s.world)
      → Idle w₀ (shutdown os services s)
  unfolding shutdown
  Owned-Idle w₀ none none s eb er h =
      let run : shutdown os services s ≡ s = ground arith in rw run (eb, er, h)
  Owned-Idle w₀ none (some n) s eb er h = elim h [ ]
  Owned-Idle w₀ (some h) none s eb er (fresh, holds) =
      let run : shutdown os services s
          ≡ record s { brpc_server = none; world = services.stop_server h s.world } =
        ground arith in
      let stopped = laws.server_stopped h s.world in
      rw run (
        refl,
        er,
        elim holds [
          | inl same ↦ ground (arith, stopped, same, without-none h (live w₀) fresh)
          | inr more ↦ ground (arith, stopped, more, without-head h (live w₀) fresh)
        ],
      )
  Owned-Idle w₀ (some h) (some n) s eb er (fresh, fresh', more) =
      let w₁ = services.shutdown_node n s.world in
      let run : shutdown os services s
          ≡ record s { brpc_server = none; raft_node = none; world = services.stop_server h w₁ } =
        ground arith in
      let node_gone : live w₁ ≡ h ∷ live w₀ =
        laws.node_shut n s.world ∙ (ap (without n) more ∙ without-head n (h ∷ live w₀) fresh') in
      rw run (
        refl,
        refl,
        laws.server_stopped h w₁ ∙ (ap (without h) node_gone ∙ without-head h (live w₀) fresh),
      )

  -- Init ended. When it reports success, the server that the state machine holds is started and the node
  -- initialised; when it reports a failure, there is no node. Behind a shutdown nothing of it is left.
  pub data Returned (w₀ : W) : Run (VoidResult × StateMachine W) → Type 0 where
    succeeded :
        {result : VoidResult} {s : StateMachine W} (h n : ℕ)
        → result_ok result ≡ true
        → s.brpc_server ≡ some h
        → s.raft_node ≡ some n
        → live s.world ≡ n ∷ h ∷ live w₀
        → Idle w₀ (shutdown os services s)
        → Returned w₀ (ends (result, s))
    failed :
        {result : VoidResult} {s : StateMachine W}
        → result_ok result ≡ false
        → s.raft_node ≡ none
        → Idle w₀ (shutdown os services s)
        → Returned w₀ (ends (result, s))

  Held-Returned :
      (w₀ : W) (r : Run (VoidResult × StateMachine W)) → Held os services laws w₀ r → Returned w₀ r
  Held-Returned w₀ (ends (result, s)) (owned, ok) =
      go s.brpc_server s.raft_node refl refl owned ok
        (Owned-Idle w₀ s.brpc_server s.raft_node s refl refl owned)
    where
      go :
          (b r : Option ℕ)
          → s.brpc_server ≡ b
          → s.raft_node ≡ r
          → Owned os services laws w₀ b r (live s.world)
          → result_ok result ≡ is_there os services laws r
          → Idle w₀ (shutdown os services s)
          → Returned w₀ (ends (result, s))
      go b none eb er h bad idle = failed bad er idle
      go none (some n) eb er h good idle = elim h [ ]
      go (some h) (some n) eb er (fresh, fresh', more) good idle =
          succeeded h n good eb er more idle
  Held-Returned w₀ blocks h = elim h [ ]
  Held-Returned w₀ spins h = elim h [ ]

  -- Over services that meet the laws: init of a new state machine ends. When it reports success,
  -- the state machine has a server and a node, which are live; when it reports a failure, it has
  -- no node. In either case shutdown then stops every server and node that it has started, and no
  -- other.
  pub shutdown-init_state_machine :
      (options : Options) (peer_id : Bytes) (w : W)
      → Returned w (init_state_machine os services (new_state_machine options peer_id w))
  shutdown-init_state_machine options peer_id w =
      Held-Returned w (init_state_machine os services (new_state_machine options peer_id w))
        (init_state_machine-Held w (new_state_machine options peer_id w) (refl, refl, refl))
