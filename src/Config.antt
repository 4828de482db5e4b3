-- ===== src/Config.antt =====
-- src/include/diarkis/config.h and src/config.cc: the server's configuration, its checks, and where its
-- values come from: defaults, a YAML file, and command line flags.
pub mod Yaml
pub mod Startup
pub mod Valid
pub mod Overrides
mod Examples
use diarkis.Base.{ℕ, zero, suc, ◌%◌, ◌^◌, Bool, true, false, Bytes, text, is_empty, if◌then◌else◌}
use diarkis.Base.Int.{ℤ, pos, negsuc, is_nonpos, is_negative, is_zero}
use diarkis.Error.{ErrorCode, invalid_command, Error, VoidResult, void_ok, fail}

pub record ServerConfig : Type 0 where
  pub base_path : Bytes
  pub raft_path : Bytes
  pub group_id : Bytes
  pub peer_addr : Bytes
  pub initial_conf : Bytes
  pub election_timeout_ms : ℤ
  pub snapshot_interval_s : ℤ
  pub rpc_addr : Bytes
  pub rpc_port : ℕ

-- ServerConfig()
abbrev pub default_config : ServerConfig
default_config = record {
  base_path = text "./data";
  raft_path = text "./raft";
  group_id = text "diarkis_fs";
  peer_addr = text "127.0.0.1:8100";
  initial_conf = text "127.0.0.1:8100";
  election_timeout_ms = pos 5000;
  snapshot_interval_s = pos 3600;
  rpc_addr = text "0.0.0.0";
  rpc_port = 9100;
}

-- A round of the checks: the error, or the checks that follow.
abbrev pub refuse_if : Bool → Bytes → VoidResult → VoidResult
refuse_if bad message others =
    if bad then fail (record { code = invalid_command; message = message }) else others

-- rpc_port == 0
abbrev pub port_is_zero : ℕ → Bool
port_is_zero zero = true
port_is_zero (suc n) = false

-- ServerConfig::validate
unfoldable pub validate : ServerConfig → VoidResult
validate c = refuse_if (is_empty c.base_path) (text "base_path cannot be empty") (
    refuse_if (is_empty c.raft_path) (text "raft_path cannot be empty") (
      refuse_if (is_empty c.group_id) (text "group_id cannot be empty") (
        refuse_if (is_empty c.peer_addr) (text "peer_addr cannot be empty") (
          refuse_if (is_empty c.initial_conf) (text "initial_conf cannot be empty") (
            refuse_if (is_nonpos c.election_timeout_ms)
              (text "election_timeout_ms must be positive")
              (refuse_if (is_negative c.snapshot_interval_s)
                (text "snapshot_interval_s cannot be negative")
                (refuse_if (is_empty c.rpc_addr) (text "rpc_addr cannot be empty") (
                  refuse_if (port_is_zero c.rpc_port) (text "rpc_port must be specified")
                    void_ok))))))))

-- The values of the flags that src/config.cc defines; the defaults are "" and 0.
pub record Flags : Type 0 where
  pub base_path : Bytes
  pub raft_path : Bytes
  pub group_id : Bytes
  pub peer_addr : Bytes
  pub initial_conf : Bytes
  pub election_timeout : ℤ
  pub snapshot_interval : ℤ
  pub rpc_addr : Bytes
  pub rpc_port : ℤ

-- if (!FLAGS_x.empty()) config.x = FLAGS_x
abbrev pub override : Bytes → Bytes → Bytes
override flag old = if is_empty flag then old else flag

-- if (FLAGS_x > 0) config.x = FLAGS_x
abbrev pub override_int : ℤ → ℤ → ℤ
override_int flag old = if is_nonpos flag then old else flag

-- if (FLAGS_rpc_port > 0) config.rpc_port = static_cast<uint16_t>(FLAGS_rpc_port)
abbrev pub override_port : ℤ → ℕ → ℕ
override_port (pos zero) old = old
override_port (pos (suc n)) old = suc n % 2 ^ 16
override_port (negsuc n) old = old

-- ConfigLoader::apply_command_line_flags
unfoldable pub apply_command_line_flags : Flags → ServerConfig → ServerConfig
apply_command_line_flags f c = record {
  base_path = override f.base_path c.base_path;
  raft_path = override f.raft_path c.raft_path;
  group_id = override f.group_id c.group_id;
  peer_addr = override f.peer_addr c.peer_addr;
  initial_conf = override f.initial_conf c.initial_conf;
  election_timeout_ms = override_int f.election_timeout c.election_timeout_ms;
  snapshot_interval_s = override_int f.snapshot_interval c.snapshot_interval_s;
  rpc_addr = override f.rpc_addr c.rpc_addr;
  rpc_port = override_port f.rpc_port c.rpc_port;
}
