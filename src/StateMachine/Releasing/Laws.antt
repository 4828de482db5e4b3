-- ===== src/StateMachine/Releasing/Laws.antt =====
-- What StateMachine::init and shutdown rely on of braft, brpc and butil.
use diarkis.Base.{ℕ, true, false, List, [], ◌∷◌, Bytes, ◌≡◌, refl, arith, mem, without}
use diarkis.Posix.{Posix}
use diarkis.StateMachine.Startup.{NodeOptions, Services}

-- What init and shutdown rely on: `live` are the handles of the servers that are started and the nodes that
-- are initialised; a new handle is not among them.
pub record ServiceLaws {W : Type 0} (os : Posix W) (services : Services W) : Type 0 where
  pub live : W → List ℕ
  pub stat_kept : (p : Bytes) (w : W) → live (os.stat_path p w).1 ≡ live w
  pub make_directory_kept :
      (mode : ℕ) (p : Bytes) (w : W) → live (os.make_directory mode p w).1 ≡ live w
  pub directory_kept : (p : Bytes) (w : W) → live (services.create_directory p w).1 ≡ live w
  pub server_made :
      (w : W)
      → (live (services.new_server w).1 ≡ live w) × (mem (services.new_server w).0 (live w) ≡ false)
  pub service_added : (h : ℕ) (p : Bytes) (w : W) → live (services.add_service h p w).1 ≡ live w
  pub server_started :
      (h : ℕ) (p : Bytes) (w w' : W)
      → services.start_server h p w ≡ (true, w')
      → live w' ≡ h ∷ live w
  pub server_not_started :
      (h : ℕ) (p : Bytes) (w w' : W) → services.start_server h p w ≡ (false, w') → live w' ≡ live w
  pub server_stopped : (h : ℕ) (w : W) → live (services.stop_server h w) ≡ without h (live w)
  pub node_made :
      (g p : Bytes) (w : W)
      → (live (services.new_node g p w).1 ≡ live w)
        × (mem (services.new_node g p w).0 (live w) ≡ false)
  pub node_initialised :
      (h : ℕ) (o : NodeOptions) (w w' : W)
      → services.init_node h o w ≡ (true, w')
      → live w' ≡ h ∷ live w
  pub node_not_initialised :
      (h : ℕ) (o : NodeOptions) (w w' : W)
      → services.init_node h o w ≡ (false, w')
      → live w' ≡ live w
  pub node_deleted : (h : ℕ) (w : W) → live (services.delete_node h w) ≡ live w
  pub node_shut : (h : ℕ) (w : W) → live (services.shutdown_node h w) ≡ without h (live w)

pub without-none : (h : ℕ) (xs : List ℕ) → mem h xs ≡ false → without h xs ≡ xs
without-none h [] e = refl
without-none h (x ∷ xs) e = ground (arith, without-none h xs)

pub without-head : (h : ℕ) (xs : List ℕ) → mem h xs ≡ false → without h (h ∷ xs) ≡ xs
without-head h xs e = ground (arith, without-none h xs e)
