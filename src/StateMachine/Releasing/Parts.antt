-- ===== src/StateMachine/Releasing/Parts.antt =====
-- What each part of StateMachine::init leaves.
use diarkis.Base.{
  ℕ, Option, none, some, Bool, true, false, not, List, ◌∷◌, text, ◌≡◌, refl, ◌⊎◌, inl, inr,
  Bool-cases, arith, mem,
}
use diarkis.Error.{VoidResult, result_ok, error_ok, void_ok, fail}
use diarkis.Path.{drop_last_slashes}
use diarkis.Posix.{Posix}
use diarkis.Posix.Laws.{Outcome-cases}
use diarkis.Storage.Monad.{Run, ends, blocks, spins}
use diarkis.Storage.Entries.{init}
use diarkis.Storage.Scope.{dir_mode}
use diarkis.StateMachine.Startup.{
  Services, StateMachine, init_storage, init_raft_directories, init_brpc_server, init_raft_node,
  no_service, no_server, no_configuration, no_node, node_options,
}
use diarkis.StateMachine.Releasing.Laws.{ServiceLaws}

module _ {W : Type 0} (os : Posix W) (services : Services W) (laws : ServiceLaws os services) where
  open laws use {live}

  -- Nothing runs yet but what runs in the world `w₀`.
  abbrev pub Before : W → StateMachine W → Type 0
  Before w₀ s = (s.brpc_server ≡ none) × (s.raft_node ≡ none) × (live s.world ≡ live w₀)

  -- A part of init ended, and nothing runs yet.
  abbrev pub Unstarted : W → Run (VoidResult × StateMachine W) → Type 0
  Unstarted w₀ (ends (result, s)) = Before w₀ s
  Unstarted w₀ blocks = ⊥
  Unstarted w₀ spins = ⊥

  -- The handles of the server and of the node, and what is live, where the state machine can give all of it
  -- back but what is live in the world `w₀`.
  abbrev pub Owned : W → Option ℕ → Option ℕ → List ℕ → Type 0
  Owned w₀ none none xs = xs ≡ live w₀
  Owned w₀ none (some n) xs = ⊥
  Owned w₀ (some h) none xs = (mem h (live w₀) ≡ false) × ((xs ≡ live w₀) ⊎ (xs ≡ h ∷ live w₀))
  Owned w₀ (some h) (some n) xs =
      (mem h (live w₀) ≡ false) × (mem n (h ∷ live w₀) ≡ false) × (xs ≡ n ∷ h ∷ live w₀)

  abbrev pub is_there : Option ℕ → Bool
  is_there none = false
  is_there (some h) = true

  -- A part of init ended, with success exactly if the node is there.
  abbrev pub Held : W → Run (VoidResult × StateMachine W) → Type 0
  Held w₀ (ends (result, s)) =
      Owned w₀ s.brpc_server s.raft_node (live s.world) × (result_ok result ≡ is_there s.raft_node)
  Held w₀ blocks = ⊥
  Held w₀ spins = ⊥

  pub init_storage-Unstarted :
      (w₀ : W) (s : StateMachine W) → Before w₀ s → Unstarted w₀ (init_storage os services s)
  unfolding init_storage init
  init_storage-Unstarted w₀ s b =
      let base = drop_last_slashes s.options.base_path in
      let kept = laws.stat_kept base s.world in
      elim (Outcome-cases (os.stat_path base s.world)) [
        | inl (st, w, e) ↦ elim (Bool-cases (not st.is_directory)) [
          | inl other ↦ ground (arith, b, kept)
          | inr directory ↦ ground (arith, b, kept)
        ]
        | inr (err, w, e) ↦
            let kept' = laws.make_directory_kept dir_mode base w in
            elim (Outcome-cases (os.make_directory dir_mode base w)) [
              | inl (x, w', e') ↦ ground (arith, b, kept, kept')
              | inr (err', w', e') ↦ ground (arith, b, kept, kept')
            ]
      ]

  pub init_raft_directories-Unstarted :
      (w₀ : W) (s : StateMachine W)
      → Before w₀ s
      → Unstarted w₀ (init_raft_directories os services s)
  unfolding init_raft_directories
  init_raft_directories-Unstarted w₀ s b =
      let path = services.append s.options.raft_path in
      let (made, w₁) = services.create_directory (path (text "log")) s.world in
      let (made', w₂) = services.create_directory (path (text "raft_meta")) w₁ in
      let (made'', w₃) = services.create_directory (path (text "snapshot")) w₂ in
      let kept₁ = laws.directory_kept (path (text "log")) s.world in
      let kept₂ = laws.directory_kept (path (text "raft_meta")) w₁ in
      let kept₃ = laws.directory_kept (path (text "snapshot")) w₂ in
      elim (Bool-cases made) [
        | inr bad ↦ ground (arith, b, kept₁)
        | inl good ↦ elim (Bool-cases made') [
          | inr bad' ↦ ground (arith, b, kept₁, kept₂)
          | inl good' ↦ elim (Bool-cases made'') [
            | inr bad'' ↦ ground (arith, b, kept₁, kept₂, kept₃)
            | inl good'' ↦ ground (arith, b, kept₁, kept₂, kept₃)
          ]
        ]
      ]

  -- The server runs; or the part of init that starts it has failed.
  abbrev pub Serving : W → Run (VoidResult × StateMachine W) → Type 0
  Serving w₀ (ends (result, s)) =
      (s.raft_node ≡ none)
      × ((h : ℕ) × ((s.brpc_server ≡ some h)
            × (mem h (live w₀) ≡ false)
            × (((result_ok result ≡ true) × (live s.world ≡ h ∷ live w₀))
                ⊎ ((result_ok result ≡ false) × (live s.world ≡ live w₀)))))
  Serving w₀ blocks = ⊥
  Serving w₀ spins = ⊥

  pub init_brpc_server-Serving :
      (w₀ : W) (s : StateMachine W) → Before w₀ s → Serving w₀ (init_brpc_server os services s)
  unfolding init_brpc_server result_ok error_ok
  init_brpc_server-Serving w₀ s b =
      let h = (services.new_server s.world).0 in
      let w₁ = (services.new_server s.world).1 in
      let w₂ = (services.add_service h s.peer_id w₁).1 in
      let w₃ = (services.start_server h s.peer_id w₂).1 in
      let made = laws.server_made s.world in
      let kept = laws.service_added h s.peer_id w₁ in
      let fresh : mem h (live w₀) ≡ false = ground (arith, b, made) in
      elim (Bool-cases (services.add_service h s.peer_id w₁).0) [
        | inr bad ↦
            let run : init_brpc_server os services s
                ≡ ends (fail no_service, record s { brpc_server = some h; world = w₂ }) =
              ground arith in
            rw run (b.1, (h, (refl, fresh, inr (refl, ground (arith, b, made, kept)))))
        | inl good ↦ elim (Bool-cases (services.start_server h s.peer_id w₂).0) [
          | inr bad ↦
              let run : init_brpc_server os services s
                  ≡ ends (fail no_server, record s { brpc_server = some h; world = w₃ }) =
                ground arith in
              let same = laws.server_not_started h s.peer_id w₂ w₃ (ground (arith, bad)) in
              rw run (b.1, (h, (refl, fresh, inr (refl, ground (arith, b, made, kept, same)))))
          | inl started ↦
              let run : init_brpc_server os services s
                  ≡ ends (void_ok, record s { brpc_server = some h; world = w₃ }) =
                ground arith in
              let more = laws.server_started h s.peer_id w₂ w₃ (ground (arith, started)) in
              rw run (b.1, (h, (refl, fresh, inl (refl, ground (arith, b, made, kept, more)))))
        ]
      ]

  pub init_raft_node-Held :
      (w₀ : W) (h : ℕ) (s : StateMachine W)
      → s.raft_node ≡ none
      → s.brpc_server ≡ some h
      → mem h (live w₀) ≡ false
      → live s.world ≡ h ∷ live w₀
      → Held w₀ (init_raft_node os services s)
  unfolding init_raft_node result_ok error_ok
  init_raft_node-Held w₀ h s no_node_yet serving fresh holds =
      let n = (services.new_node s.options.group_id s.peer_id s.world).0 in
      let w₁ = (services.new_node s.options.group_id s.peer_id s.world).1 in
      let o = node_options os services s.options in
      let w₂ = (services.init_node n o w₁).1 in
      let made = laws.node_made s.options.group_id s.peer_id s.world in
      elim (Bool-cases (services.is_configuration s.options.initial_conf)) [
        | inr bad ↦
            let run : init_raft_node os services s ≡ ends (fail no_configuration, s) =
              ground arith in
            rw run (rw serving (rw no_node_yet ((fresh, inr holds), refl)))
        | inl good ↦ elim (Bool-cases (services.init_node n o w₁).0) [
          | inr bad ↦
              let run : init_raft_node os services s
                  ≡ ends (
                    fail no_node,
                    record s { raft_node = none; world = services.delete_node n w₂ },
                  ) =
                ground arith in
              let same = laws.node_not_initialised n o w₁ w₂ (ground (arith, bad)) in
              let deleted = laws.node_deleted n w₂ in
              rw run (rw serving ((fresh, inr (ground (arith, made, holds, same, deleted))), refl))
          | inl initialised ↦
              let run : init_raft_node os services s
                  ≡ ends (void_ok, record s { raft_node = some n; world = w₂ }) =
                ground arith in
              let more = laws.node_initialised n o w₁ w₂ (ground (arith, initialised)) in
              rw run (
                rw serving
                  ((fresh, ground (arith, made, holds), ground (arith, made, holds, more)), refl))
        ]
      ]
