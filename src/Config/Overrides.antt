-- ===== src/Config/Overrides.antt =====
-- How the command line flags change a configuration.
use diarkis.Base.{
  ℕ, zero, suc, ◌%◌, ◌^◌, ◌<◌, ◌≡◌, refl, ◌∙◌, false, Bytes, [], ◌∷◌, arith, Bool-cases, inl, inr,
}
use diarkis.Base.Int.{ℤ, pos, negsuc}
use diarkis.Error.{result_ok}
use diarkis.Config.{
  ServerConfig, Flags, override, override_int, override_port, apply_command_line_flags, validate,
}
use diarkis.Config.Valid.{validate_iff}

override_idem : (f old : Bytes) → override f (override f old) ≡ override f old
override_idem [] old = refl
override_idem (x ∷ xs) old = refl

override_int_idem : (f old : ℤ) → override_int f (override_int f old) ≡ override_int f old
override_int_idem (pos zero) old = refl
override_int_idem (pos (suc n)) old = refl
override_int_idem (negsuc n) old = refl

override_port_idem : (f : ℤ) (old : ℕ) → override_port f (override_port f old) ≡ override_port f old
override_port_idem (pos zero) old = refl
override_port_idem (pos (suc n)) old = refl
override_port_idem (negsuc n) old = refl

-- Applying the flags a second time changes nothing.
pub apply_command_line_flags_idem :
    (f : Flags) (c : ServerConfig)
    → apply_command_line_flags f (apply_command_line_flags f c) ≡ apply_command_line_flags f c
unfolding apply_command_line_flags
apply_command_line_flags_idem f c = ground (
  arith,
  override_idem f.base_path c.base_path,
  override_idem f.raft_path c.raft_path,
  override_idem f.group_id c.group_id,
  override_idem f.peer_addr c.peer_addr,
  override_idem f.initial_conf c.initial_conf,
  override_int_idem f.election_timeout c.election_timeout_ms,
  override_int_idem f.snapshot_interval c.snapshot_interval_s,
  override_idem f.rpc_addr c.rpc_addr,
  override_port_idem f.rpc_port c.rpc_port,
)

override_port-positive : (n old : ℕ) → 0 < n → override_port (pos n) old ≡ n % 2 ^ 16
override_port-positive zero old h = omega (arith, h)
override_port-positive (suc n) old h = refl

-- A positive port flag is cut to 16 bits: the port is the flag's remainder modulo 65536, and where
-- that is 0, the configuration is refused.
pub apply_command_line_flags-port :
    (f : Flags) (c : ServerConfig) (n : ℕ)
    → f.rpc_port ≡ pos n
    → 0 < n
    → let c' = apply_command_line_flags f c in
      (c'.rpc_port ≡ n % 65536) × (n % 65536 ≡ 0 → result_ok (validate c') ≡ false)
unfolding apply_command_line_flags
apply_command_line_flags-port f c n given positive =
    let port : override_port f.rpc_port c.rpc_port ≡ n % 65536 =
      rw given (override_port-positive n c.rpc_port positive) in
    (
      port,
      λ zero_port. elim (Bool-cases (result_ok (validate (apply_command_line_flags f c)))) [
        | inl ok ↦
            elim (((validate_iff (apply_command_line_flags f c)).0 ok).has_port
              (port ∙ zero_port)) [ ]
        | inr refused ↦ refused
      ],
    )
