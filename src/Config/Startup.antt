-- ===== src/Config/Startup.antt =====
-- src/main.cc: load_configuration, and the options that initialize_state_machine fills from it;
-- src/state_machine.cc: the check of those options.
use diarkis.Base.{Bool, true, false, Bytes, text, ◌++◌, is_empty, if◌then◌else◌}
use diarkis.Base.Int.{ℤ, is_nonpos}
use diarkis.Error.{invalid_command, VoidResult, Result, value, failure, result_ok, to_string}
use diarkis.Config.{ServerConfig, Flags, apply_command_line_flags, validate}
use diarkis.Config.Yaml.{Yaml, load_from_file}

abbrev pub checked : ServerConfig → VoidResult → Result ServerConfig
checked config validation =
    if result_ok validation
    then value config
    else failure (record {
      code = invalid_command;
      message = text "Configuration validation failed: " ++ to_string validation.error;
    })

abbrev pub load_with : Flags → Result ServerConfig → Result ServerConfig
load_with flags (failure e) = failure e
load_with flags (value config) =
    let config' = apply_command_line_flags flags config in checked config' (validate config')

-- load_configuration; `path` is FLAGS_config.
unfoldable pub load_configuration :
    {Node : Type 0} → Yaml Node → Bytes → Flags → Result ServerConfig
unfolding load_from_file
load_configuration yaml path flags = load_with flags (load_from_file yaml path)

-- StateMachine::Options, without peer_id.
pub record Options : Type 0 where
  pub base_path : Bytes
  pub raft_path : Bytes
  pub group_id : Bytes
  pub initial_conf : Bytes
  pub election_timeout_ms : ℤ
  pub snapshot_interval_s : ℤ

-- sm_opts of initialize_state_machine
abbrev pub state_machine_options : ServerConfig → Options
state_machine_options config = record {
  base_path = config.base_path;
  raft_path = config.raft_path;
  group_id = config.group_id;
  initial_conf = config.initial_conf;
  election_timeout_ms = config.election_timeout_ms;
  snapshot_interval_s = config.snapshot_interval_s;
}

-- StateMachine::Options::validate
unfoldable pub validate_options : Options → Bool
validate_options o =
    if is_empty o.base_path
    then false
    else if is_empty o.raft_path
    then false
    else if is_empty o.group_id
    then false
    else if is_empty o.initial_conf
    then false
    else if is_nonpos o.election_timeout_ms
    then false
    else true
