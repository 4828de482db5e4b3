-- ===== src/StateMachine/Durable.antt =====
-- What an acknowledged write leaves in the storage.
use diarkis.Base.{
  ℕ, ◌+◌, ◌<◌, List, [], ◌≡◌, refl, ap, ◌∙◌, none, some, true, Bytes, length, inl, inr, Bool-cases,
  arith,
}
use mathlib.Core.Path.{subst}
use diarkis.Base.Table.{find}
use diarkis.Error.{VoidResult, result_ok}
use diarkis.Path.{validate_path, resolve_path}
use diarkis.Commands.{CommandType, Command, Response, Msgpack, MsgpackLaws}
use diarkis.Posix.{Posix}
use diarkis.Posix.Laws.{Laws}
use diarkis.Storage.Monad.{Storage, Run, ends, blocks, spins, Action, pure, and_then}
use diarkis.Storage.Quiet.{Clean}
use diarkis.Storage.Files.{write_file}
use diarkis.Storage.Writing.{Written, write_file-Written}
use diarkis.Storage.RoundTrip.{Written-ok}
use diarkis.StateMachine.Apply.{Status, status_ok, settle, apply_command, on_apply}
use diarkis.StateMachine.Requests.{Leadership, apply_write_command}
use diarkis.StateMachine.Leader.{Commits, apply_write_command-Acknowledged}
use diarkis.StateMachine.Progress.{NoSelfRenames, on_apply-Clean}

-- The command of a client's write_file.
abbrev pub write_command : Bytes → Bytes → Command
write_command path buffer = record {
  type = CommandType.write_file;
  path = path;
  new_path = [];
  contents = buffer;
}

module _ {W : Type 0} (os : Posix W) (fuel : ℕ) (laws : Laws os) where
  open laws use {contents, interrupts}

  settled-ok :
      (r : Run (VoidResult × Storage W)) (s : Storage W)
      → and_then r (λ x. pure (settle true x)) ≡ ends (status_ok, s)
      → (x : VoidResult) × ((r ≡ ends (x, s)) × (result_ok x ≡ true))
  unfolding settle
  settled-ok (ends (x, t)) s h = elim (Bool-cases (result_ok x)) [
    | inl ok ↦ (x, (ground arith, ok))
    | inr bad ↦ ground arith
  ]
  settled-ok blocks s h = ground arith
  settled-ok spins s h = ground arith

  -- A write that ended with an OK status left its buffer.
  applied-contents :
      (path buffer : Bytes) (t s : Storage W)
      → result_ok (validate_path path) ≡ true
      → find path t.file_locker ≡ none
      → length buffer + interrupts t.world < fuel
      → apply_command os fuel (write_command path buffer) true t ≡ ends (status_ok, s)
      → contents s.world (resolve_path t.base_path path) ≡ some buffer
  unfolding apply_command
  applied-contents path buffer t s valid free enough h =
      let (x, (run, ok)) = settled-ok (write_file os fuel path buffer t) s h in
      Written-ok os laws (resolve_path t.base_path path) [] buffer t.world x s ok (
        subst (Written os laws (resolve_path t.base_path path) t.world [] buffer) run
          (write_file-Written os laws fuel path buffer t valid free enough))

  module _ (msgpack : Msgpack) (replicate : Bytes → Action W Status) (codec : MsgpackLaws msgpack)
      (commits : Commits os fuel msgpack replicate) where
    open commits use {earlier}

    -- Over system calls that meet the laws, when MessagePack unpacks what it packed, and Raft runs
    -- a closure either with the status of applying its entry behind earlier entries or with an
    -- error: when a request to write an accepted path is answered with success, from an empty lock
    -- table, with no rename of a path to itself among the earlier entries, and with fuel for the
    -- write behind them, the file of that path on the leader holds exactly the buffer.
    pub apply_write_command-contents :
        (l : Leadership) (path buffer : Bytes) (response : Response) (s s' : Storage W)
        → apply_write_command msgpack replicate l (write_command path buffer) s
          ≡ ends (response, s')
        → response.success ≡ true
        → result_ok (validate_path path) ≡ true
        → s.file_locker ≡ []
        → ((b : Bytes) → NoSelfRenames msgpack (earlier b s))
        → ((b : Bytes) (statuses : List Status) (t : Storage W)
            → on_apply os fuel msgpack (earlier b s) s ≡ ends (statuses, t)
            → length buffer + interrupts t.world < fuel)
        → contents s'.world (resolve_path s.base_path path) ≡ some buffer
    unfolding find
    apply_write_command-contents l path buffer response s s' h ok valid idle harmless enough =
        let (_, (b, (_, run))) =
          apply_write_command-Acknowledged os fuel msgpack replicate codec commits l
            (write_command path buffer) response s s' h ok in
        go b (on_apply os fuel msgpack (earlier b s) s) refl
          (on_apply-Clean os fuel msgpack (earlier b s) s (harmless b) idle) run
      where
        go :
            (b : Bytes) (r : Run (List Status × Storage W))
            → on_apply os fuel msgpack (earlier b s) s ≡ r
            → Clean s r
            → and_then r (λ _. apply_command os fuel (write_command path buffer) true)
              ≡ ends (status_ok, s')
            → contents s'.world (resolve_path s.base_path path) ≡ some buffer
        go b (ends (statuses, t)) e c run =
            subst (λ base. contents s'.world (resolve_path base path) ≡ some buffer) c.1
              (applied-contents path buffer t s' valid (ap (find path) (c.0 ∙ idle))
                (enough b statuses t e) run)
        go b blocks e c run = elim c [ ]
        go b spins e c run = ground arith
