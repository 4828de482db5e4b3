-- ===== src/Config/Yaml.antt =====
-- ConfigLoader::load_from_file and parse_yaml. yaml-cpp is an interface: a call returns, or throws a
-- YAML::Exception with the text of what().
use diarkis.Base.{ℕ, Option, none, some, Bytes, text, ◌++◌, is_empty, if◌then◌else◌}
use diarkis.Base.Int.{ℤ}
use diarkis.Error.{io_error, Result, value, failure}
use diarkis.Config.{ServerConfig, default_config}

pub data Throws (A : Type 0) : Type 0 where
  returns : A → Throws A
  throws : Bytes → Throws A

-- YAML::LoadFile; node["key"], where it converts to true; and node.as<T>().
pub record Yaml (Node : Type 0) : Type 0 where
  pub load_file : Bytes → Throws Node
  pub child : Node → Bytes → Throws (Option Node)
  pub as_string : Node → Throws Bytes
  pub as_int : Node → Throws ℤ
  pub as_uint16 : Node → Throws ℕ

infixl 5 ◌>>=◌
abbrev pub ◌>>=◌ : {A B : Type 0} → Throws A → (A → Throws B) → Throws B
returns a >>= f = f a
throws e >>= f = throws e

-- if (node["key"]) ...
abbrev pub if_present : {Node A : Type 0} → Throws (Option Node) → A → (Node → Throws A) → Throws A
if_present found otherwise then_do = do
  o ← found
  elim o [ none ↦ returns otherwise | some node ↦ then_do node ]

module _ {Node : Type 0} (yaml : Yaml Node) where
  -- if (section["key"]) config.field = section["key"].as<T>()
  abbrev pub setting :
      {A : Type 0}
      → (Node → Throws A)
      → Node
      → Bytes
      → (A → ServerConfig → ServerConfig)
      → ServerConfig
      → Throws ServerConfig
  setting convert section key assign c =
      if_present (yaml.child section key) c λ node. do v ← convert node; returns (assign v c)

  abbrev pub storage_section : Node → ServerConfig → Throws ServerConfig
  storage_section storage =
      setting yaml.as_string storage (text "base_path") λ v c. record c { base_path = v }

  abbrev pub raft_section : Node → ServerConfig → Throws ServerConfig
  raft_section raft c = do
    c₁ ← setting yaml.as_string raft (text "path") (λ v c. record c { raft_path = v }) c
    c₂ ← setting yaml.as_string raft (text "group_id") (λ v c. record c { group_id = v }) c₁
    c₃ ← setting yaml.as_string raft (text "peer_addr") (λ v c. record c { peer_addr = v }) c₂
    c₄ ← setting yaml.as_string raft (text "initial_conf") (λ v c. record c { initial_conf = v }) c₃
    c₅ ←
        setting yaml.as_int raft (text "election_timeout_ms")
          (λ v c. record c { election_timeout_ms = v }) c₄
    setting yaml.as_int raft (text "snapshot_interval")
        (λ v c. record c { snapshot_interval_s = v }) c₅

  abbrev pub rpc_section : Node → ServerConfig → Throws ServerConfig
  rpc_section rpc c = do
    c₁ ← setting yaml.as_string rpc (text "addr") (λ v c. record c { rpc_addr = v }) c
    setting yaml.as_uint16 rpc (text "port") (λ v c. record c { rpc_port = v }) c₁

  -- The body of the try block.
  abbrev pub parse_document : Node → Throws ServerConfig
  parse_document document = do
    c₁ ←
        if_present (yaml.child document (text "storage")) default_config
          λ storage. storage_section storage default_config
    c₂ ← if_present (yaml.child document (text "raft")) c₁ λ raft. raft_section raft c₁
    if_present (yaml.child document (text "rpc")) c₂ λ rpc. rpc_section rpc c₂

  -- The handler of the try block.
  abbrev pub caught : Throws ServerConfig → Result ServerConfig
  caught (returns c) = value c
  caught (throws e) =
      failure (record { code = io_error; message = text "Failed to parse config: " ++ e })

  -- ConfigLoader::parse_yaml
  unfoldable pub parse_yaml : Bytes → Result ServerConfig
  parse_yaml config_path =
      caught (do document ← yaml.load_file config_path; parse_document document)

  -- ConfigLoader::load_from_file
  unfoldable pub load_from_file : Bytes → Result ServerConfig
  unfolding parse_yaml
  load_from_file config_path =
      if is_empty config_path then value default_config else parse_yaml config_path
