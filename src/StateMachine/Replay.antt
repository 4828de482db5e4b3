-- ===== src/StateMachine/Replay.antt =====
-- StateMachine::on_apply of src/state_machine.cc on whole logs.
use diarkis.Base.{
  ℕ, List, [], ◌∷◌, ◌++◌, ◌≡◌, refl, sym, ap, ◌∙◌, inl, inr, Bool, true, false, Bytes, map, length,
  ltb, arith, Bool-cases,
}
use diarkis.Error.{VoidResult, result_ok}
use diarkis.Path.{validate_path}
use diarkis.Base.Table.{find}
use diarkis.Locker.Laws.{NotIdle}
use diarkis.Commands.{
  CommandType, Command, unpack_error, type_error, other_exception, Try, got, threw, Msgpack,
}
use diarkis.Posix.{Posix}
use diarkis.Storage.Monad.{
  Storage, Run, ends, blocks, spins, Action, pure, ◌>>=◌, and_then, and_then_assoc, and_then_congr,
  and_then_pure, after, after-bind,
}
use diarkis.Storage.Files.{create_file, write_file, append_file}
use diarkis.Storage.Entries.{create_directory, rename, delete_file, delete_directory}
use diarkis.Storage.Rename.{rename_self_blocks}
use diarkis.StateMachine.Apply.{
  Status, Entry, settle, settled, apply_type, apply_decoded, apply_command, apply_entry, on_apply,
  max_log_entry_size,
}

-- The entry as a node sees it that nobody waits on.
abbrev pub detached : Entry → Entry
detached e = record e { has_done = false }

module _ {W : Type 0} (os : Posix W) (fuel : ℕ) (msgpack : Msgpack) where
  onward : Status → List Entry → List Entry → Storage W → Run (List Status × Storage W)
  onward st es fs s =
      and_then (on_apply os fuel msgpack es s)
        λ xs s'. and_then (on_apply os fuel msgpack fs s') λ ys. pure (st ∷ xs ++ ys)

  -- Applying a log in one call of on_apply is applying a beginning of it and then the rest in two:
  -- the statuses, the storage, and whether the run ends are the same.
  pub on_apply-append :
      (es fs : List Entry) (s : Storage W)
      → on_apply os fuel msgpack (es ++ fs) s
        ≡ (do xs ← on_apply os fuel msgpack es; ys ← on_apply os fuel msgpack fs; pure (xs ++ ys)) s
  unfolding on_apply onward
  on_apply-append [] fs s = sym (and_then_pure (on_apply os fuel msgpack fs s))
  on_apply-append (e ∷ es) fs s =
      and_then_congr (apply_entry os fuel msgpack e s) _ _ (λ st s'.
        ap (λ r. and_then r λ statuses. pure (st ∷ statuses)) (on_apply-append es fs s')
        ∙ (and_then_assoc (on_apply os fuel msgpack es s') _ _
            ∙ (and_then_congr (on_apply os fuel msgpack es s') _ _
                  (λ xs s''. and_then_assoc (on_apply os fuel msgpack fs s'') _ _)
                ∙ sym (and_then_assoc (on_apply os fuel msgpack es s') _ _))))
      ∙ sym (and_then_assoc (apply_entry os fuel msgpack e s) _ _)

  pub on_apply-cons_ends :
      (e : Entry) (es : List Entry) (s s' : Storage W) (st : Status)
      → apply_entry os fuel msgpack e s ≡ ends (st, s')
      → on_apply os fuel msgpack (e ∷ es) s
        ≡ and_then (on_apply os fuel msgpack es s') (λ statuses. pure (st ∷ statuses))
  unfolding on_apply
  on_apply-cons_ends e es s s' st h = ground (arith, h)

  pub on_apply-cons_blocks :
      (e : Entry) (es : List Entry) (s : Storage W)
      → apply_entry os fuel msgpack e s ≡ blocks
      → on_apply os fuel msgpack (e ∷ es) s ≡ blocks
  unfolding on_apply
  on_apply-cons_blocks e es s h = ground (arith, h)

  after-settled :
      (m : Action W VoidResult) (b c : Bool) (s : Storage W)
      → after (settled os fuel b m s) ≡ after (settled os fuel c m s)
  after-settled m b c s = go (m s)
    where
      go :
          (r : Run (VoidResult × Storage W))
          → after (and_then r λ x. pure (settle b x)) ≡ after (and_then r λ x. pure (settle c x))
      go (ends (x, s')) = refl
      go blocks = refl
      go spins = refl

  after-apply_type :
      (t : CommandType) (cmd : Command) (b c : Bool) (s : Storage W)
      → after (apply_type os fuel t cmd b s) ≡ after (apply_type os fuel t cmd c s)
  after-apply_type CommandType.create_file cmd b c s = after-settled (create_file os cmd.path) b c s
  after-apply_type CommandType.write_file cmd b c s =
      after-settled (write_file os fuel cmd.path cmd.contents) b c s
  after-apply_type CommandType.append_file cmd b c s =
      after-settled (append_file os fuel cmd.path cmd.contents) b c s
  after-apply_type CommandType.delete_file cmd b c s = after-settled (delete_file os cmd.path) b c s
  after-apply_type CommandType.create_dir cmd b c s =
      after-settled (create_directory os cmd.path) b c s
  after-apply_type CommandType.delete_dir cmd b c s =
      after-settled (delete_directory os cmd.path) b c s
  after-apply_type CommandType.rename cmd b c s =
      after-settled (rename os cmd.path cmd.new_path) b c s
  after-apply_type CommandType.read_file cmd b c s = refl
  after-apply_type CommandType.list_dir cmd b c s = refl
  after-apply_type (CommandType.other n) cmd b c s = refl

  after-apply_decoded :
      (t : Try Command) (b c : Bool) (s : Storage W)
      → after (apply_decoded os fuel msgpack t b s) ≡ after (apply_decoded os fuel msgpack t c s)
  unfolding apply_command
  after-apply_decoded (got cmd) b c s = after-apply_type cmd.type cmd b c s
  after-apply_decoded (threw (unpack_error w)) b c s = refl
  after-apply_decoded (threw (type_error w)) b c s = refl
  after-apply_decoded (threw (other_exception w)) b c s = refl

  after-apply_entry :
      (e : Entry) (s : Storage W)
      → after (apply_entry os fuel msgpack e s) ≡ after (apply_entry os fuel msgpack (detached e) s)
  unfolding apply_entry
  after-apply_entry e s = elim (Bool-cases (ltb max_log_entry_size (length e.bytes))) [
    | inl h ↦ ground arith
    | inr h ↦
        ground (arith, after-apply_decoded (msgpack.unpack_command e.bytes) e.has_done false s)
  ]

  -- What a log does to the storage, and whether its run ends, is the same when no closure waits
  -- for any of its entries: the leader and its followers compute the same storage.
  pub on_apply-detached :
      (es : List Entry) (s : Storage W)
      → after (on_apply os fuel msgpack es s) ≡ after (on_apply os fuel msgpack (map detached es) s)
  unfolding on_apply
  on_apply-detached [] s = refl
  on_apply-detached (e ∷ es) s =
      after-bind (apply_entry os fuel msgpack e s) (apply_entry os fuel msgpack (detached e) s) _ _
        (after-apply_entry e s)
        (λ a b t.
          after-bind (on_apply os fuel msgpack es t) (on_apply os fuel msgpack (map detached es) t)
            _ _ (on_apply-detached es t) λ x y u. refl)

  apply_entry-self_rename :
      (done : Bool) (bytes : Bytes) (cmd : Command) (s : Storage W)
      → ltb max_log_entry_size (length bytes) ≡ false
      → msgpack.unpack_command bytes ≡ got cmd
      → cmd.type ≡ CommandType.rename
      → cmd.path ≡ cmd.new_path
      → result_ok (validate_path cmd.path) ≡ true
      → NotIdle (find cmd.path s.file_locker)
      → apply_entry os fuel msgpack (record { bytes = bytes; has_done = done }) s ≡ blocks
  unfolding apply_entry apply_command
  apply_entry-self_rename done bytes cmd s small decoded renames itself valid idle =
      ground (arith, rename_self_blocks os s cmd.path valid idle)

  -- When the entries before it have been applied and the lock table has no idle entry for the
  -- path, an entry within the size limit that decodes to a rename of an accepted path to itself
  -- makes the call of on_apply wait for ever.
  pub on_apply-self_rename :
      (es : List Entry) (done : Bool) (bytes : Bytes) (fs : List Entry) (cmd : Command)
      (s s' : Storage W) (statuses : List Status)
      → on_apply os fuel msgpack es s ≡ ends (statuses, s')
      → ltb max_log_entry_size (length bytes) ≡ false
      → msgpack.unpack_command bytes ≡ got cmd
      → cmd.type ≡ CommandType.rename
      → cmd.path ≡ cmd.new_path
      → result_ok (validate_path cmd.path) ≡ true
      → NotIdle (find cmd.path s'.file_locker)
      → on_apply os fuel msgpack (es ++ record { bytes = bytes; has_done = done } ∷ fs) s ≡ blocks
  on_apply-self_rename es done bytes fs cmd s s' statuses before small decoded renames itself valid
        idle =
      on_apply-append es (record { bytes = bytes; has_done = done } ∷ fs) s
      ∙ ground (
        arith,
        before,
        on_apply-cons_blocks (record { bytes = bytes; has_done = done }) fs s'
            (apply_entry-self_rename done bytes cmd s' small decoded renames itself valid idle),
      )
