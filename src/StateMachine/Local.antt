-- ===== src/StateMachine/Local.antt =====
-- Services that meet the laws, over a world that lists the live handles and the sockets; a base path is always there, and
-- a node is refused an empty configuration.
use diarkis.Base.{
  ℕ, suc, ◌+◌, ◌≤◌, none, true, false, List, [], ◌∷◌, ◌++◌, Bytes, ◌≡◌, refl, mem, without, arith,
  is_empty, if◌then◌else◌, Bool-cases, inl, inr,
}
use diarkis.Error.{enoent}
use diarkis.Posix.{Posix, returned, failed}
use diarkis.StateMachine.Startup.{Services, NodeOptions}
use diarkis.StateMachine.Releasing.Laws.{ServiceLaws}

abbrev total : List ℕ → ℕ
total [] = 0
total (x ∷ xs) = x + total xs

-- A handle that is not live.
abbrev pub fresh : List ℕ → ℕ
fresh w = suc (total w)

mem-total : (i : ℕ) (w : List ℕ) → mem i w ≡ true → i ≤ total w
mem-total i [] h = ground arith
mem-total i (x ∷ xs) h = ground (arith, mem-total i xs)

pub mem-fresh : (w : List ℕ) → mem (fresh w) w ≡ false
mem-fresh w = elim (Bool-cases (mem (fresh w) w)) [
  | inl found ↦ absurd (omega (arith, mem-total (fresh w) w found))
  | inr other_one ↦ other_one
]

-- The handles of the servers and nodes that are live, and the descriptors that are open, and that listen.
pub record World : Type 0 where
  pub live : List ℕ
  pub descriptors : List ℕ
  pub listening : List ℕ

-- A world without sockets.
abbrev pub offline : List ℕ → World
offline live = record { live = live; descriptors = []; listening = [] }

abbrev pub local : Posix World
local = record {
  strerror = λ e. [];
  open_file = λ m p w. (failed enoent, w);
  close_file = λ fd w. w;
  stat_file = λ fd w. (failed enoent, w);
  read_bytes = λ fd n w. (failed enoent, w);
  write_bytes = λ fd b w. (failed enoent, w);
  sync = λ fd w. (returned tt, w);
  make_directory = λ m p w. (returned tt, w);
  remove_directory = λ p w. (failed enoent, w);
  remove_file = λ p w. (failed enoent, w);
  move = λ p q w. (failed enoent, w);
  stat_path = λ p w. (returned (record { is_directory = true; size = 0 }), w);
  open_directory = λ p w. (failed enoent, w);
  read_entry = λ d w. (none, w);
  close_directory = λ d w. w;
}

abbrev pub services : Services World
services = record {
  append = λ p q. p ++ q;
  create_directory = λ p w. (true, w);
  new_server = λ w. (fresh w.live, w);
  add_service = λ h p w. (true, w);
  start_server = λ h p w. (true, record w { live = h ∷ w.live });
  stop_server = λ h w. record w { live = without h w.live };
  is_configuration = λ c. true;
  new_node = λ g p w. (fresh w.live, w);
  init_node = λ h o w.
      if is_empty o.initial_conf then (false, w) else (true, record w { live = h ∷ w.live });
  delete_node = λ h w. w;
  shutdown_node = λ h w. record w { live = without h w.live };
}

pub server_started :
    (h : ℕ) (p : Bytes) (w w' : World)
    → services.start_server h p w ≡ (true, w')
    → w'.live ≡ h ∷ w.live
server_started h p w w' e = ground arith

pub server_not_started :
    (h : ℕ) (p : Bytes) (w w' : World)
    → services.start_server h p w ≡ (false, w')
    → w'.live ≡ w.live
server_not_started h p w w' e = ground arith

pub node_initialised :
    (h : ℕ) (o : NodeOptions) (w w' : World)
    → services.init_node h o w ≡ (true, w')
    → w'.live ≡ h ∷ w.live
node_initialised h o w w' e = ground arith

pub node_not_initialised :
    (h : ℕ) (o : NodeOptions) (w w' : World)
    → services.init_node h o w ≡ (false, w')
    → w'.live ≡ w.live
node_not_initialised h o w w' e = ground arith

abbrev pub service_laws : ServiceLaws local services
service_laws = record {
  live = λ w. w.live;
  stat_kept = λ p w. refl;
  make_directory_kept = λ m p w. refl;
  directory_kept = λ p w. refl;
  server_made = λ w. (refl, mem-fresh w.live);
  service_added = λ h p w. refl;
  server_started = server_started;
  server_not_started = server_not_started;
  server_stopped = λ h w. refl;
  node_made = λ g p w. (refl, mem-fresh w.live);
  node_initialised = node_initialised;
  node_not_initialised = node_not_initialised;
  node_deleted = λ h w. refl;
  node_shut = λ h w. refl;
}
