-- ===== src/Config/Valid.antt =====
-- What ServerConfig::validate accepts, and what a loaded configuration is.
use diarkis.Base.{
  ℕ, zero, suc, ◌≡◌, ◌≢◌, ◌↔◌, refl, sym, Bool, true, false, Bytes, [], ◌∷◌, is_empty, arith,
  Bool-cases, inl, inr,
}
use mathlib.Core.Path.{subst}
use diarkis.Base.Int.{is_nonpos, is_negative}
use diarkis.Error.{VoidResult, void_ok, Result, value, failure, result_ok}
use diarkis.Config.{
  ServerConfig, Flags, validate, refuse_if, port_is_zero, apply_command_line_flags,
}
use diarkis.Config.Yaml.{Yaml, load_from_file}
use diarkis.Config.Startup.{
  checked, load_with, load_configuration, state_machine_options, validate_options,
}

-- Every text is there, the timeout is positive, the interval is not negative, the port is not zero.
pub record IsValid (c : ServerConfig) : Type 0 where
  pub has_base_path : c.base_path ≢ []
  pub has_raft_path : c.raft_path ≢ []
  pub has_group_id : c.group_id ≢ []
  pub has_peer_addr : c.peer_addr ≢ []
  pub has_initial_conf : c.initial_conf ≢ []
  pub positive_timeout : is_nonpos c.election_timeout_ms ≡ false
  pub interval_from_zero : is_negative c.snapshot_interval_s ≡ false
  pub has_rpc_addr : c.rpc_addr ≢ []
  pub has_port : c.rpc_port ≢ 0

-- A list of checks passes where the first does and the others do.
refuse_if-ok :
    (bad : Bool) (message : Bytes) (others : VoidResult)
    → result_ok (refuse_if bad message others) ≡ true
    → (bad ≡ false) × (result_ok others ≡ true)
unfolding result_ok
refuse_if-ok true message others ok = ground arith
refuse_if-ok false message others ok = (refl, ok)

is_empty-ne : (b : Bytes) → is_empty b ≡ false → b ≢ []
is_empty-ne [] h = ground arith
is_empty-ne (x ∷ xs) h = λ e. ground arith

ne-is_empty : (b : Bytes) → b ≢ [] → is_empty b ≡ false
ne-is_empty [] h = elim (h refl) [ ]
ne-is_empty (x ∷ xs) h = refl

port_is_zero-ne : (n : ℕ) → port_is_zero n ≡ false → n ≢ 0
port_is_zero-ne zero h = ground arith
port_is_zero-ne (suc n) h = λ e. omega (arith, e)

validate-only : (c : ServerConfig) → result_ok (validate c) ≡ true → IsValid c
unfolding validate
validate-only c ok₀ =
    let (a₁, ok₁) = refuse_if-ok _ _ _ ok₀ in
    let (a₂, ok₂) = refuse_if-ok _ _ _ ok₁ in
    let (a₃, ok₃) = refuse_if-ok _ _ _ ok₂ in
    let (a₄, ok₄) = refuse_if-ok _ _ _ ok₃ in
    let (a₅, ok₅) = refuse_if-ok _ _ _ ok₄ in
    let (a₆, ok₆) = refuse_if-ok _ _ _ ok₅ in
    let (a₇, ok₇) = refuse_if-ok _ _ _ ok₆ in
    let (a₈, ok₈) = refuse_if-ok _ _ _ ok₇ in
    let (a₉, ok₉) = refuse_if-ok _ _ _ ok₈ in
    record {
      has_base_path = is_empty-ne c.base_path a₁;
      has_raft_path = is_empty-ne c.raft_path a₂;
      has_group_id = is_empty-ne c.group_id a₃;
      has_peer_addr = is_empty-ne c.peer_addr a₄;
      has_initial_conf = is_empty-ne c.initial_conf a₅;
      positive_timeout = a₆;
      interval_from_zero = a₇;
      has_rpc_addr = is_empty-ne c.rpc_addr a₈;
      has_port = port_is_zero-ne c.rpc_port a₉;
    }

ok-refuse_if :
    (bad : Bool) (message : Bytes) (others : VoidResult)
    → bad ≡ false
    → result_ok others ≡ true
    → result_ok (refuse_if bad message others) ≡ true
ok-refuse_if bad message others h ok = ground arith

void_ok-ok : result_ok void_ok ≡ true
unfolding result_ok
void_ok-ok = refl

positive-port_is_zero : (n : ℕ) → n ≢ 0 → port_is_zero n ≡ false
positive-port_is_zero zero h = elim (h refl) [ ]
positive-port_is_zero (suc n) h = refl

validate-if : (c : ServerConfig) → IsValid c → result_ok (validate c) ≡ true
unfolding validate
validate-if c v = ok-refuse_if _ _ _ (ne-is_empty c.base_path v.has_base_path) (
    ok-refuse_if _ _ _ (ne-is_empty c.raft_path v.has_raft_path) (
      ok-refuse_if _ _ _ (ne-is_empty c.group_id v.has_group_id) (
        ok-refuse_if _ _ _ (ne-is_empty c.peer_addr v.has_peer_addr) (
          ok-refuse_if _ _ _ (ne-is_empty c.initial_conf v.has_initial_conf) (
            ok-refuse_if _ _ _ v.positive_timeout (
              ok-refuse_if _ _ _ v.interval_from_zero (
                ok-refuse_if _ _ _ (ne-is_empty c.rpc_addr v.has_rpc_addr) (
                  ok-refuse_if _ _ _ (positive-port_is_zero c.rpc_port v.has_port)
                    void_ok-ok))))))))

-- ServerConfig::validate accepts exactly the configurations with no empty text, a positive
-- timeout, an interval that is not negative, and a port other than 0.
pub validate_iff : (c : ServerConfig) → (result_ok (validate c) ≡ true) ↔ IsValid c
validate_iff c = (validate-only c, validate-if c)

validate_options-IsValid :
    (c : ServerConfig) → IsValid c → validate_options (state_machine_options c) ≡ true
unfolding validate_options
validate_options-IsValid c v = ground (
  arith,
  ne-is_empty c.base_path v.has_base_path,
  ne-is_empty c.raft_path v.has_raft_path,
  ne-is_empty c.group_id v.has_group_id,
  ne-is_empty c.initial_conf v.has_initial_conf,
  v.positive_timeout,
)

checked-value :
    (c c' : ServerConfig)
    → checked c (validate c) ≡ value c'
    → (result_ok (validate c) ≡ true) × (c ≡ c')
checked-value c c' h = elim (Bool-cases (result_ok (validate c))) [
  | inl ok ↦ ground arith
  | inr bad ↦ ground arith
]

-- A configuration that load_configuration returns is valid, it is the loaded one with the flags
-- applied, and the options that the state machine gets from it pass the state machine's own check.
pub load_configuration-IsValid :
    {Node : Type 0} (yaml : Yaml Node) (path : Bytes) (flags : Flags) (c : ServerConfig)
    → load_configuration yaml path flags ≡ value c
    → IsValid c
      × (validate_options (state_machine_options c) ≡ true)
      × ((d : ServerConfig) × ((load_from_file yaml path ≡ value d)
            × (c ≡ apply_command_line_flags flags d)))
unfolding load_configuration
load_configuration-IsValid yaml path flags c h = go (load_from_file yaml path) refl h
  where
    go :
        (r : Result ServerConfig)
        → load_from_file yaml path ≡ r
        → load_with flags r ≡ value c
        → IsValid c
          × (validate_options (state_machine_options c) ≡ true)
          × ((d : ServerConfig) × ((load_from_file yaml path ≡ value d)
                × (c ≡ apply_command_line_flags flags d)))
    go (failure e) loaded k = ground arith
    go (value d) loaded k =
        let c' = apply_command_line_flags flags d in
        let (ok, same) = checked-value c' c k in
        let valid = subst IsValid same (validate-only c' ok) in
        (valid, validate_options-IsValid c valid, (d, (loaded, sym same)))
