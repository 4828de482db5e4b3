-- ===== src/Storage/Quiet.antt =====
-- Actions that leave the locks alone: a rule for each way to build an action.
use diarkis.Base.{ℕ, ◌≡◌, refl, Option, none, some, Bool, true, false, Bytes, if◌then◌else◌, arith}
use diarkis.Base.Table.{find}
use diarkis.Error.{Errno}
use diarkis.Locker.Laws.{free_write, free_read}
use diarkis.Path.{resolve_path}
use diarkis.Posix.{Posix, Outcome, returned, failed}
use diarkis.Storage.Monad.{
  Storage, Run, ends, blocks, spins, Action, out_of_fuel, pure, perform, next_entry, change_world,
  with_read, with_write, with_descriptor, and_then, ◌>>=◌,
}
use diarkis.Storage.Scope.{resolving}

module _ {W : Type 0} where
  -- A run that waits for no lock and ends, if it does, with the locks of its start.
  abbrev pub Clean : {A : Type 0} → Storage W → Run (A × Storage W) → Type 0
  Clean s (ends (a, s')) = (s'.file_locker ≡ s.file_locker) × (s'.base_path ≡ s.base_path)
  Clean s blocks = ⊥
  Clean s spins = Unit

-- Such runs, from every state.
pub record Quiet {W A : Type 0} (m : Action W A) : Type 0 where
  pub at : (s : Storage W) → Clean s (m s)

module _ {W A : Type 0} where
  pub Quiet-pure : (a : A) → Quiet (pure {W = W} a)
  Quiet-pure a = record { at = λ s. (refl, refl) }

  pub Quiet-out_of_fuel : Quiet (out_of_fuel {W = W} {A = A})
  Quiet-out_of_fuel = record { at = λ s. tt }

  pub Quiet-if : (b : Bool) (m n : Action W A) → Quiet m → Quiet n → Quiet (if b then m else n)
  Quiet-if true m n qm qn = qm
  Quiet-if false m n qm qn = qn

module _ {W : Type 0} where
  pub Quiet-change_world : (f : W → W) → Quiet (change_world f)
  Quiet-change_world f = record { at = λ s. (refl, refl) }

module _ {W A : Type 0} where
  pub Quiet-resolving :
      (path : Bytes) (body : Bytes → Action W A)
      → ((p : Bytes) → Quiet (body p))
      → Quiet (resolving path body)
  Quiet-resolving path body q = record { at = λ s. (q (resolve_path s.base_path path)).at s }

  pub Quiet-next_entry :
      (f : W → Option Bytes × W) (m : Action W A) (n : Bytes → Action W A)
      → Quiet m
      → ((name : Bytes) → Quiet (n name))
      → Quiet (next_entry f m n)
  Quiet-next_entry f m n qm qn = record { at = λ s. go s (f s.world).0 (f s.world).1 }
    where
      go :
          (s : Storage W) (o : Option Bytes) (w : W)
          → Clean s (elim o as (λ _. Run (A × Storage W)) [
            | none ↦ m (record s { world = w })
            | some name ↦ n name (record s { world = w })
          ])
      go s none w = qm.at (record s { world = w })
      go s (some name) w = (qn name).at (record s { world = w })

module _ {W A B : Type 0} where
  pub Quiet-perform :
      (f : W → Outcome B × W) (m : B → Action W A) (n : Errno → Action W A)
      → ((b : B) → Quiet (m b))
      → ((e : Errno) → Quiet (n e))
      → Quiet (perform f m n)
  Quiet-perform f m n qm qn = record { at = λ s. go s (f s.world).0 (f s.world).1 }
    where
      go :
          (s : Storage W) (o : Outcome B) (w : W)
          → Clean s (elim o as (λ _. Run (A × Storage W)) [
            | returned b ↦ m b (record s { world = w })
            | failed err ↦ n err (record s { world = w })
          ])
      go s (returned b) w = (qm b).at (record s { world = w })
      go s (failed e) w = (qn e).at (record s { world = w })

  pub Quiet-bind :
      (m : Action W B) (f : B → Action W A) → Quiet m → ((b : B) → Quiet (f b)) → Quiet (m >>= f)
  Quiet-bind m f qm qf = record { at = λ s. go s (m s) (qm.at s) }
    where
      onward :
          (s s' : Storage W) (r : Run (A × Storage W))
          → s'.file_locker ≡ s.file_locker
          → s'.base_path ≡ s.base_path
          → Clean s' r
          → Clean s r
      onward s s' r e d c = ground arith

      go : (s : Storage W) (r : Run (B × Storage W)) → Clean s r → Clean s (and_then r f)
      go s (ends (b, s')) c = onward s s' (f b s') c.0 c.1 ((qf b).at s')
      go s blocks c = c
      go s spins c = tt

module _ {W A : Type 0} where
  pub Quiet-with_descriptor :
      (os : Posix W) (fd : ℕ) (m : Action W A) → Quiet m → Quiet (with_descriptor os fd m)
  Quiet-with_descriptor os fd m q =
      Quiet-bind m _ q λ a. Quiet-bind _ _ (Quiet-change_world (os.close_file fd)) λ _. Quiet-pure a

  -- On a path that nobody locks a scope runs its body, and gives the lock back.
  pub with_write-Clean :
      (path : Bytes) (m : Action W A) (s : Storage W)
      → Quiet m
      → find path s.file_locker ≡ none
      → Clean s (with_write path m s)
  with_write-Clean path m s q free =
      let (t, taken, back) = free_write path s.file_locker free in
      ground (arith, q.at (record s { file_locker = t }))

  pub with_read-Clean :
      (path : Bytes) (m : Action W A) (s : Storage W)
      → Quiet m
      → find path s.file_locker ≡ none
      → Clean s (with_read path m s)
  with_read-Clean path m s q free =
      let (t, taken, back) = free_read path s.file_locker free in
      ground (arith, q.at (record s { file_locker = t }))

pub ruleset quiet_rules = (
  Quiet-pure, Quiet-out_of_fuel, Quiet-if, Quiet-change_world, Quiet-resolving, Quiet-perform,
  Quiet-next_entry, Quiet-bind, Quiet-with_descriptor,
)
