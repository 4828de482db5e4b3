-- ===== src/StateMachine/Progress.antt =====
-- StateMachine::on_apply of src/state_machine.cc, the locks, and entries that it cannot use.
use diarkis.Base.{
  ℕ, List, [], ◌∷◌, ◌++◌, ◌≡◌, ◌≢◌, refl, sym, ap, ◌∙◌, ◌⊎◌, inl, inr, Bool, true, arith,
  Bool-cases, length, ltb,
}
use diarkis.Base.Table.{find}
use diarkis.Error.{VoidResult}
use diarkis.Commands.{
  CommandType, Command, Exception, unpack_error, type_error, other_exception, Try, got, threw,
  Msgpack,
}
use diarkis.Posix.{Posix}
use diarkis.Storage.Monad.{
  Storage, Run, ends, blocks, spins, Action, pure, and_then, after, after-bind,
}
use diarkis.Storage.Quiet.{Clean}
use diarkis.Storage.Locking.{
  create_file-Clean, write_file-Clean, append_file-Clean, delete_file-Clean, create_directory-Clean,
  delete_directory-Clean,
}
use diarkis.Storage.Rename.{rename-Clean}
use diarkis.Storage.Files.{create_file, write_file, append_file}
use diarkis.Storage.Entries.{create_directory, rename, delete_file, delete_directory}
use diarkis.StateMachine.Apply.{
  Status, Entry, settled, settle, apply_type, apply_decoded, apply_command, apply_entry, on_apply,
  max_log_entry_size,
}
use diarkis.StateMachine.Replay.{on_apply-append, on_apply-cons_ends}

-- A command that does not rename a path to itself.
abbrev pub NoSelfRename : Command → Type 0
NoSelfRename cmd = cmd.type ≡ CommandType.rename → cmd.path ≢ cmd.new_path

-- No entry of the log decodes to a command that renames a path to itself.
unfoldable pub NoSelfRenames : Msgpack → List Entry → Type 0
NoSelfRenames msgpack [] = Unit
NoSelfRenames msgpack (e ∷ es) =
    ((cmd : Command) → msgpack.unpack_command e.bytes ≡ got cmd → NoSelfRename cmd)
    × NoSelfRenames msgpack es

-- An entry that on_apply cannot use: too large, or no command.
abbrev pub Unusable : Msgpack → Entry → Type 0
Unusable msgpack e =
    (ltb max_log_entry_size (length e.bytes) ≡ true)
    ⊎ ((err : Exception) × (msgpack.unpack_command e.bytes ≡ threw err))

module _ {W A B : Type 0} where
  Clean-onward :
      (s : Storage W) (r : Run (A × Storage W)) (f : A → Action W B)
      → Clean s r
      → ((a : A) (s' : Storage W) → s'.file_locker ≡ s.file_locker → Clean s' (f a s'))
      → Clean s (and_then r f)
  Clean-onward s (ends (a, s')) f c k = joined s s' (f a s') c.0 c.1 (k a s' c.0)
    where
      joined :
          (s s' : Storage W) (r : Run (B × Storage W))
          → s'.file_locker ≡ s.file_locker
          → s'.base_path ≡ s.base_path
          → Clean s' r
          → Clean s r
      joined s s' r e d c = ground arith
  Clean-onward s blocks f c k = c
  Clean-onward s spins f c k = tt

module _ {W A B : Type 0} where
  after-pure : (r : Run (A × Storage W)) (f : A → B) → after (and_then r λ x. pure (f x)) ≡ after r
  after-pure (ends x) f = refl
  after-pure blocks f = refl
  after-pure spins f = refl

module _ {W : Type 0} (os : Posix W) (fuel : ℕ) where
  settled-Clean :
      (done : Bool) (m : Action W VoidResult) (s : Storage W)
      → Clean s (m s)
      → Clean s (settled os fuel done m s)
  settled-Clean done m s c =
      Clean-onward s (m s) (λ x. pure (settle done x)) c (λ a s' e. (refl, refl))

  apply_type-Clean :
      (t : CommandType) (cmd : Command) (done : Bool) (s : Storage W)
      → (t ≡ CommandType.rename → cmd.path ≢ cmd.new_path)
      → s.file_locker ≡ []
      → Clean s (apply_type os fuel t cmd done s)
  unfolding find
  apply_type-Clean CommandType.create_file cmd done s safe idle =
      settled-Clean done (create_file os cmd.path) s
        (create_file-Clean os cmd.path s (ap (find cmd.path) idle))
  apply_type-Clean CommandType.write_file cmd done s safe idle =
      settled-Clean done (write_file os fuel cmd.path cmd.contents) s
        (write_file-Clean os cmd.path s fuel cmd.contents (ap (find cmd.path) idle))
  apply_type-Clean CommandType.append_file cmd done s safe idle =
      settled-Clean done (append_file os fuel cmd.path cmd.contents) s
        (append_file-Clean os cmd.path s fuel cmd.contents (ap (find cmd.path) idle))
  apply_type-Clean CommandType.delete_file cmd done s safe idle =
      settled-Clean done (delete_file os cmd.path) s
        (delete_file-Clean os cmd.path s (ap (find cmd.path) idle))
  apply_type-Clean CommandType.create_dir cmd done s safe idle =
      settled-Clean done (create_directory os cmd.path) s (create_directory-Clean os cmd.path s)
  apply_type-Clean CommandType.delete_dir cmd done s safe idle =
      settled-Clean done (delete_directory os cmd.path) s (delete_directory-Clean os cmd.path s)
  apply_type-Clean CommandType.rename cmd done s safe idle =
      settled-Clean done (rename os cmd.path cmd.new_path) s (
        rename-Clean os s cmd.path cmd.new_path (safe refl) (ap (find cmd.path) idle)
          (ap (find cmd.new_path) idle))
  apply_type-Clean CommandType.read_file cmd done s safe idle = (refl, refl)
  apply_type-Clean CommandType.list_dir cmd done s safe idle = (refl, refl)
  apply_type-Clean (CommandType.other n) cmd done s safe idle = (refl, refl)

  module _ (msgpack : Msgpack) where
    apply_decoded-Clean :
        (t : Try Command) (done : Bool) (s : Storage W)
        → ((cmd : Command) → t ≡ got cmd → NoSelfRename cmd)
        → s.file_locker ≡ []
        → Clean s (apply_decoded os fuel msgpack t done s)
    unfolding apply_command
    apply_decoded-Clean (got cmd) done s safe idle =
        apply_type-Clean cmd.type cmd done s (safe cmd refl) idle
    apply_decoded-Clean (threw (unpack_error w)) done s safe idle = (refl, refl)
    apply_decoded-Clean (threw (type_error w)) done s safe idle = (refl, refl)
    apply_decoded-Clean (threw (other_exception w)) done s safe idle = (refl, refl)

    apply_entry-Clean :
        (e : Entry) (s : Storage W)
        → ((cmd : Command) → msgpack.unpack_command e.bytes ≡ got cmd → NoSelfRename cmd)
        → s.file_locker ≡ []
        → Clean s (apply_entry os fuel msgpack e s)
    unfolding apply_entry
    apply_entry-Clean e s safe idle = elim (Bool-cases (ltb max_log_entry_size (length e.bytes))) [
      | inl h ↦ rw h (refl, refl)
      | inr h ↦ rw h (apply_decoded-Clean (msgpack.unpack_command e.bytes) e.has_done s safe idle)
    ]

    -- From an empty lock table, a log of which no entry decodes to a rename of a path to itself
    -- waits for no lock, and where its run ends, the lock table and the base path are as they
    -- were.
    pub on_apply-Clean :
        (es : List Entry) (s : Storage W)
        → NoSelfRenames msgpack es
        → s.file_locker ≡ []
        → Clean s (on_apply os fuel msgpack es s)
    unfolding on_apply NoSelfRenames
    on_apply-Clean [] s safe idle = (refl, refl)
    on_apply-Clean (e ∷ es) s safe idle =
        Clean-onward s (apply_entry os fuel msgpack e s) _ (apply_entry-Clean e s safe.0 idle)
          λ status s' same.
            Clean-onward s' (on_apply os fuel msgpack es s') _
              (on_apply-Clean es s' safe.1 (same ∙ idle)) λ stes s'' _. (refl, refl)

    skips_undecoded :
        (err : Exception) (done : Bool) (s : Storage W)
        → (status : Status) × (apply_decoded os fuel msgpack (threw err) done s ≡ ends (status, s))
    skips_undecoded (unpack_error w) done s = (_, refl)
    skips_undecoded (type_error w) done s = (_, refl)
    skips_undecoded (other_exception w) done s = (_, refl)

    skips :
        (e : Entry) (s : Storage W)
        → Unusable msgpack e
        → (status : Status) × (apply_entry os fuel msgpack e s ≡ ends (status, s))
    unfolding apply_entry
    skips e s bad = elim (Bool-cases (ltb max_log_entry_size (length e.bytes))) [
      | inl h ↦ rw h (_, refl)
      | inr h ↦ rw h (elim bad [
        | inl large ↦ ground arith
        | inr (err, threw_it) ↦ rw threw_it (skips_undecoded err e.has_done s)
      ])
    ]

    after-on_apply-skips :
        (e : Entry) (fs : List Entry) (s : Storage W)
        → Unusable msgpack e
        → after (on_apply os fuel msgpack (e ∷ fs) s) ≡ after (on_apply os fuel msgpack fs s)
    after-on_apply-skips e fs s bad =
        let (status, h) = skips e s bad in
        ap after (on_apply-cons_ends os fuel msgpack e fs s s status h)
        ∙ after-pure (on_apply os fuel msgpack fs s) (λ xs. status ∷ xs)

    -- An entry that is too large, or on which decoding throws, changes nothing: what a log with it
    -- does to the storage is what the log does without it.
    pub on_apply-skips :
        (es fs : List Entry) (e : Entry) (s : Storage W)
        → Unusable msgpack e
        → after (on_apply os fuel msgpack (es ++ e ∷ fs) s)
          ≡ after (on_apply os fuel msgpack (es ++ fs) s)
    on_apply-skips es fs e s bad =
        ap after (on_apply-append os fuel msgpack es (e ∷ fs) s)
        ∙ (after-bind (on_apply os fuel msgpack es s) (on_apply os fuel msgpack es s) _ _ refl
              (λ xs xs' t.
                after-pure (on_apply os fuel msgpack (e ∷ fs) t) (λ ys. xs ++ ys)
                ∙ (after-on_apply-skips e fs t bad
                    ∙ sym (after-pure (on_apply os fuel msgpack fs t) (λ ys. xs' ++ ys))))
            ∙ sym (ap after (on_apply-append os fuel msgpack es fs s)))
