-- ===== src/StateMachine/Leader.antt =====
-- What a client may conclude from the response of StateMachine::apply_write_command.
use diarkis.Base.{
  Option, none, some, ℕ, List, ◌≡◌, refl, sym, ◌∙◌, ◌⊎◌, inl, inr, true, false, Bytes, length, ltb,
  arith, Bool-cases,
}
use diarkis.Commands.{Command, Response, Try, got, threw, Msgpack, MsgpackLaws}
use diarkis.Posix.{Posix}
use diarkis.Storage.Monad.{
  Storage, Run, ends, blocks, spins, Action, pure, ◌>>=◌, and_then, and_then_congr,
}
use diarkis.StateMachine.Apply.{
  Status, status_ok, status_error, Entry, apply_command, apply_entry, on_apply, max_log_entry_size,
}
use diarkis.StateMachine.Requests.{Leadership, respond, redirect, submit, apply_write_command}

abbrev pub waited : Bytes → Entry
waited b = record { bytes = b; has_done = true }

module _ {W : Type 0} (os : Posix W) (fuel : ℕ) (msgpack : Msgpack)
    (replicate : Bytes → Action W Status) where
  -- What Raft promises of an entry that the leader submits: entries of the log are applied before it,
  -- and then it is applied and its closure is run with the status, or the closure is run with an error.
  pub record Commits : Type 0 where
    pub earlier : Bytes → Storage W → List Entry
    pub settles :
        (b : Bytes) (s : Storage W)
        → (replicate b s
            ≡ (do
              _ ← on_apply os fuel msgpack (earlier b s)
              apply_entry os fuel msgpack (waited b))
                s)
          ⊎ ((message : Bytes) × (replicate b s
                ≡ (do _ ← on_apply os fuel msgpack (earlier b s); pure (status_error message)) s))

  module _ (laws : MsgpackLaws msgpack) (commits : Commits) where
    open commits use {earlier, settles}

    -- A run that ends with a successful response ended with an OK status.
    respond-ok :
        (r : Run (Status × Storage W)) (response : Response) (s' : Storage W)
        → and_then r (λ st. pure (respond st)) ≡ ends (response, s')
        → response.success ≡ true
        → r ≡ ends (status_ok, s')
    respond-ok (ends (status_ok, s)) response s' h ok = ground arith
    respond-ok (ends (status_error m, s)) response s' h ok = ground arith
    respond-ok blocks response s' h ok = ground arith
    respond-ok spins response s' h ok = ground arith

    no_error_status :
        (r : Run (List Status × Storage W)) (m : Bytes) (s' : Storage W)
        → and_then r (λ _. pure (status_error m)) ≡ ends (status_ok, s')
        → ⊥
    no_error_status (ends x) m s' h = ground arith
    no_error_status blocks m s' h = ground arith
    no_error_status spins m s' h = ground arith

    -- The entry of a packed command is the command.
    apply_entry-pack_command :
        (cmd : Command) (b : Bytes) (s : Storage W)
        → msgpack.pack_command cmd ≡ got b
        → ltb max_log_entry_size (length b) ≡ false
        → apply_entry os fuel msgpack (waited b) s ≡ apply_command os fuel cmd true s
    unfolding apply_entry
    apply_entry-pack_command cmd b s packed small = ground (arith, laws.command_back cmd b packed)

    -- The closure's status is OK only where the entry was applied.
    replicated :
        (b : Bytes) (s s' : Storage W)
        → replicate b s ≡ ends (status_ok, s')
        → (do _ ← on_apply os fuel msgpack (earlier b s); apply_entry os fuel msgpack (waited b)) s
          ≡ ends (status_ok, s')
    replicated b s s' h = elim (settles b s) [
      | inl e ↦ sym e ∙ h
      | inr (m, e) ↦
          elim (no_error_status (on_apply os fuel msgpack (earlier b s) s) m s' (sym e ∙ h)) [ ]
    ]

    submit-Acknowledged :
        (cmd : Command) (t : Try Bytes) (response : Response) (s s' : Storage W)
        → msgpack.pack_command cmd ≡ t
        → submit msgpack replicate t s ≡ ends (response, s')
        → response.success ≡ true
        → (b : Bytes) × ((msgpack.pack_command cmd ≡ got b)
            × ((do _ ← on_apply os fuel msgpack (earlier b s); apply_command os fuel cmd true) s
                ≡ ends (status_ok, s')))
    submit-Acknowledged cmd (threw e) response s s' packed h ok = ground arith
    submit-Acknowledged cmd (got b) response s s' packed h ok =
        elim (Bool-cases (ltb max_log_entry_size (length b))) [
          | inl large ↦ ground arith
          | inr small ↦
              let run : and_then (replicate b s) (λ st. pure (respond st)) ≡ ends (response, s') =
                ground arith in
              (
                b,
                (
                  packed,
                  and_then_congr (on_apply os fuel msgpack (earlier b s) s) _ _
                        (λ _ t. sym (apply_entry-pack_command cmd b t packed small))
                      ∙ replicated b s s' (respond-ok (replicate b s) response s' run ok),
                ),
              )
        ]

    refused :
        (leader : Option Bytes) (response : Response) (s s' : Storage W)
        → pure {W = W} (redirect leader) s ≡ ends (response, s')
        → response.success ≡ true
        → ⊥
    refused none response s s' h ok = ground arith
    refused (some leader) response s s' h ok = ground arith

    -- When MessagePack unpacks what it packed, and Raft runs a submitted entry's closure either
    -- with the status of applying it behind earlier entries or with an error: a write request that
    -- is answered with success was made on the leader, its command packed, and it was applied to
    -- the storage with an OK status behind the earlier entries.
    pub apply_write_command-Acknowledged :
        (l : Leadership) (cmd : Command) (response : Response) (s s' : Storage W)
        → apply_write_command msgpack replicate l cmd s ≡ ends (response, s')
        → response.success ≡ true
        → (l.is_leader ≡ true)
          × ((b : Bytes) × ((msgpack.pack_command cmd ≡ got b)
                × ((do _ ← on_apply os fuel msgpack (earlier b s); apply_command os fuel cmd true) s
                    ≡ ends (status_ok, s'))))
    unfolding apply_write_command
    apply_write_command-Acknowledged l cmd response s s' h ok = elim (Bool-cases l.is_leader) [
      | inl leads ↦ (
        leads,
        submit-Acknowledged cmd (msgpack.pack_command cmd) response s s' refl (ground arith) ok,
      )
      | inr follows ↦ elim (refused l.leader_id response s s' (ground arith) ok) [ ]
    ]
