-- ===== src/Config/Examples.antt =====
-- Configurations without a file.
use diarkis.Base.{ℕ, ◌≡◌, refl, none, true, [], ◌∷◌, text}
use diarkis.Base.Int.{ℤ, pos, negsuc}
use diarkis.Error.{value, result_ok}
use diarkis.Config.{ServerConfig, Flags, default_config, validate, apply_command_line_flags}
use diarkis.Config.Yaml.{Yaml, returns, throws, load_from_file}
use diarkis.Config.Startup.{load_configuration, state_machine_options, validate_options}
use diarkis.Config.Valid.{IsValid, load_configuration-IsValid}

-- A parser that finds no file.
abbrev no_files : Yaml ℕ
no_files = record {
  load_file = λ path. throws [];
  child = λ node key. returns none;
  as_string = λ node. throws [];
  as_int = λ node. throws [];
  as_uint16 = λ node. throws [];
}

-- rpc_addr is given, and the port.
abbrev flags : ℤ → Flags
flags port = record {
  base_path = [];
  raft_path = [];
  group_id = [];
  peer_addr = [];
  initial_conf = [];
  election_timeout = pos 0;
  snapshot_interval = negsuc 0;
  rpc_addr = 0x61 ∷ [];
  rpc_port = port;
}

abbrev loaded : ServerConfig
loaded = record default_config { rpc_addr = 0x61 ∷ []; rpc_port = 80 }

load_runs : load_configuration no_files [] (flags (pos 80)) ≡ value loaded
unfolding load_configuration apply_command_line_flags validate result_ok text
load_runs = refl

load_configuration-IsValid_example :
    IsValid loaded
    × (validate_options (state_machine_options loaded) ≡ true)
    × ((d : ServerConfig) × ((load_from_file no_files [] ≡ value d)
          × (loaded ≡ apply_command_line_flags (flags (pos 80)) d)))
load_configuration-IsValid_example =
    load_configuration-IsValid no_files [] (flags (pos 80)) loaded load_runs
