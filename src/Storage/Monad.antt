-- ===== src/Storage/Monad.antt =====
-- Actions on a storage: its base path, its lock table and the world of the operating system.
use diarkis.Base.{arith, Option, none, some, Bytes, ℕ, ◌≡◌, refl}
use diarkis.Locker.{
  LockTable, Attempt, acquired, waits, lock_read, unlock_read, lock_write, unlock_write,
}
use diarkis.Error.{Errno}
use diarkis.Posix.{Posix, Outcome, returned, failed}

pub record Storage (W : Type 0) : Type 0 where
  pub base_path : Bytes
  pub file_locker : LockTable
  pub world : W

-- A run ends, waits for a lock that is taken, or uses up its fuel.
pub data Run (A : Type 0) : Type 0 where
  ends : A → Run A
  blocks : Run A
  spins : Run A

abbrev pub Action : Type 0 → Type 0 → Type 0
Action W A = Storage W → Run (A × Storage W)

module _ {W : Type 0} where
  abbrev pub pure : {A : Type 0} → A → Action W A
  pure a s = ends (a, s)

  abbrev pub out_of_fuel : {A : Type 0} → Action W A
  out_of_fuel s = spins

  -- What follows a run, where it ends.
  abbrev pub and_then :
      {A B : Type 0} → Run (A × Storage W) → (A → Action W B) → Run (B × Storage W)
  and_then (ends (a, s)) f = f a s
  and_then blocks f = blocks
  and_then spins f = spins

  infixl 5 ◌>>=◌ ◌>>◌
  abbrev pub ◌>>=◌ : {A B : Type 0} → Action W A → (A → Action W B) → Action W B
  ◌>>=◌ m f s = and_then (m s) f

  abbrev pub ◌>>◌ : {A B : Type 0} → Action W A → Action W B → Action W B
  m >> k = m >>= λ _. k

  -- A call that returns or fails, and what the code does next in either case.
  abbrev pub perform :
      {A B : Type 0} → (W → Outcome B × W) → (B → Action W A) → (Errno → Action W A) → Action W A
  perform f then_do otherwise s =
      let (o, w) = f s.world in
      elim o [
        | returned b ↦ then_do b (record s { world = w })
        | failed err ↦ otherwise err (record s { world = w })
      ]

  -- while ((entry = ::readdir(dir)) != nullptr): the end of the loop, or its body.
  abbrev pub next_entry :
      {A : Type 0} → (W → Option Bytes × W) → Action W A → (Bytes → Action W A) → Action W A
  next_entry f at_end body s =
      let (entry, w) = f s.world in
      elim entry [
        | none ↦ at_end (record s { world = w })
        | some name ↦ body name (record s { world = w })
      ]

  abbrev pub change_locks : (LockTable → LockTable) → Action W (Unit {0})
  change_locks f s = ends (tt, record s { file_locker = f s.file_locker })

  abbrev pub change_world : (W → W) → Action W (Unit {0})
  change_world f s = ends (tt, record s { world = f s.world })

  abbrev pub acquire : (LockTable → Attempt) → Action W (Unit {0})
  acquire f s = elim (f s.file_locker) [
    | acquired t ↦ ends (tt, record s { file_locker = t })
    | waits ↦ blocks
  ]

  -- The scope of a ReadLock.
  abbrev pub with_read : {A : Type 0} → Bytes → Action W A → Action W A
  with_read path body = do
    acquire (lock_read path)
    r ← body
    change_locks (unlock_read path)
    pure r

  -- The scope of a WriteLock.
  abbrev pub with_write : {A : Type 0} → Bytes → Action W A → Action W A
  with_write path body = do
    acquire (lock_write path)
    r ← body
    change_locks (unlock_write path)
    pure r

  -- The scope of a FileDescriptor.
  abbrev pub with_descriptor : {A : Type 0} → Posix W → ℕ → Action W A → Action W A
  with_descriptor os fd body = do r ← body; change_world (os.close_file fd); pure r

module _ {W A B : Type 0} where
  pub and_then_assoc :
      {C : Type 0} (r : Run (A × Storage W)) (f : A → Action W B) (g : B → Action W C)
      → and_then (and_then r f) g ≡ and_then r (λ a s. and_then (f a s) g)
  and_then_assoc (ends (a, s)) f g = refl
  and_then_assoc blocks f g = refl
  and_then_assoc spins f g = refl

  pub and_then_congr :
      (r : Run (A × Storage W)) (f g : A → Action W B)
      → ((a : A) (s : Storage W) → f a s ≡ g a s)
      → and_then r f ≡ and_then r g
  and_then_congr (ends (a, s)) f g h = h a s
  and_then_congr blocks f g h = refl
  and_then_congr spins f g h = refl

module _ {W A : Type 0} where
  pub and_then_pure : (r : Run (A × Storage W)) → and_then r (λ a s. ends (a, s)) ≡ r
  and_then_pure (ends (a, s)) = refl
  and_then_pure blocks = refl
  and_then_pure spins = refl

  -- The storage at the end of a run.
  abbrev pub after : Run (A × Storage W) → Run (Storage W)
  after (ends (a, s)) = ends s
  after blocks = blocks
  after spins = spins

module _ {W : Type 0} where
  -- What follows two runs that leave the same storage.
  pub after-bind :
      {A B C D : Type 0} (r : Run (A × Storage W)) (q : Run (B × Storage W)) (f : A → Action W C)
      (g : B → Action W D)
      → after r ≡ after q
      → ((a : A) (b : B) (s : Storage W) → after (f a s) ≡ after (g b s))
      → after (and_then r f) ≡ after (and_then q g)
  after-bind (ends (a, s)) (ends (b, t)) f g h k = ground (arith, k a b s)
  after-bind (ends x) blocks f g h k = ground arith
  after-bind (ends x) spins f g h k = ground arith
  after-bind blocks (ends x) f g h k = ground arith
  after-bind blocks blocks f g h k = refl
  after-bind blocks spins f g h k = ground arith
  after-bind spins (ends x) f g h k = ground arith
  after-bind spins blocks f g h k = ground arith
  after-bind spins spins f g h k = refl
