-- ===== src/Storage/RoundTrip.antt =====
-- What one method leaves and another finds: writes, appends and reads of one file.
use diarkis.Base.{
  ℕ, ◌+◌, ◌<◌, [], ◌++◌, ◌≡◌, ◌≢◌, ap, ◌∙◌, inl, inr, none, some, true, Bytes, length, append_assoc,
  arith,
}
use mathlib.Core.Path.{subst}
use diarkis.Base.Table.{find}
use diarkis.Error.{VoidResult, value, result_ok}
use diarkis.Path.{validate_path, resolve_path}
use diarkis.Posix.{Posix}
use diarkis.Posix.Laws.{Laws, or_nil}
use diarkis.Storage.Monad.{Storage, ends}
use diarkis.Storage.Scope.{max_file_size}
use diarkis.Storage.Files.{write_file, append_file, read_file}
use diarkis.Storage.Quiet.{Clean}
use diarkis.Storage.Locking.{write_file-Clean, append_file-Clean}
use diarkis.Storage.Writing.{Written, write_file-Written, append_file-Written}
use diarkis.Storage.Reading.{Read, read_file-Read}

module _ {W : Type 0} (os : Posix W) (laws : Laws os) where
  open laws use {contents, interrupts}

  -- A success leaves the whole text.
  pub Written-ok :
      (p c buffer : Bytes) (before : W) (r : VoidResult) (s : Storage W)
      → result_ok r ≡ true
      → Written os laws p before c buffer (ends (r, s))
      → contents s.world p ≡ some (c ++ buffer)
  Written-ok p c buffer before r s ok (inl h) = h.1
  Written-ok p c buffer before r s ok (inr (inl h)) = ground arith
  Written-ok p c buffer before r s ok (inr (inr h)) = ground arith

  module _ (path : Bytes) (s : Storage W) (valid : result_ok (validate_path path) ≡ true)
      (free : find path s.file_locker ≡ none) where
    -- Over system calls that meet the laws: when write_file on an accepted path that nobody locks
    -- has ended with a success, with fuel for it, then read_file of the same path ends, given its
    -- fuel, and returns the bytes that were written or an error; the file holds those bytes in
    -- either case.
    pub read_file-write_file :
        (fuel fuel' : ℕ) (buffer : Bytes) (r : VoidResult) (s' : Storage W)
        → length buffer + interrupts s.world < fuel
        → write_file os fuel path buffer s ≡ ends (r, s')
        → result_ok r ≡ true
        → length buffer + interrupts s'.world < fuel'
        → Read os laws (resolve_path s.base_path path) buffer (read_file os fuel' path s')
    read_file-write_file fuel fuel' buffer r s' lt e ok lt' =
        let (same_locks, same_base) : Clean s (ends (r, s')) =
          subst (Clean s) e (write_file-Clean os path s fuel buffer free) in
        let p = resolve_path s.base_path path in
        let held : contents s'.world p ≡ some buffer = Written-ok p [] buffer s.world r s' ok (
          subst (Written os laws p s.world [] buffer) e
            (write_file-Written os laws fuel path buffer s valid free lt)) in
        subst (λ base. Read os laws (resolve_path base path) buffer (read_file os fuel' path s'))
          same_base
          (read_file-Read os laws fuel' path buffer s' valid (ap (find path) same_locks ∙ free)
            (ap (λ base. contents s'.world (resolve_path base path)) same_base ∙ held) lt')

    -- What a successful append_file leaves.
    appended :
        (fuel : ℕ) (buffer : Bytes) (r : VoidResult) (s' : Storage W)
        → length buffer + interrupts s.world < fuel
        → append_file os fuel path buffer s ≡ ends (r, s')
        → result_ok r ≡ true
        → let p = resolve_path s.base_path path in
          (contents s'.world p ≡ some (or_nil (contents s.world p) ++ buffer))
          × (s'.file_locker ≡ s.file_locker)
          × (s'.base_path ≡ s.base_path)
    appended fuel buffer r s' lt e ok =
        let (same_locks, same_base) : Clean s (ends (r, s')) =
          subst (Clean s) e (append_file-Clean os path s fuel buffer free) in
        let p = resolve_path s.base_path path in
        (
          Written-ok p (or_nil (contents s.world p)) buffer s.world r s' ok (
              subst (Written os laws p s.world (or_nil (contents s.world p)) buffer) e
                (append_file-Written os laws fuel path buffer s valid free lt)),
          same_locks,
          same_base,
        )

  module _ (path : Bytes) (s s₁ s₂ : Storage W) (r₁ r₂ : VoidResult) (fuel₁ fuel₂ : ℕ)
      (a b : Bytes) where
    -- Over system calls that meet the laws: two appends to an accepted path that nobody locks, one
    -- after the other, each with its fuel, that both end with a success leave the two buffers one
    -- behind the other, behind what was there.
    pub append_file-append_file :
        result_ok (validate_path path) ≡ true
        → find path s.file_locker ≡ none
        → length a + interrupts s.world < fuel₁
        → length b + interrupts s₁.world < fuel₂
        → append_file os fuel₁ path a s ≡ ends (r₁, s₁)
        → append_file os fuel₂ path b s₁ ≡ ends (r₂, s₂)
        → result_ok r₁ ≡ true
        → result_ok r₂ ≡ true
        → let p = resolve_path s.base_path path in
          contents s₂.world p ≡ some (or_nil (contents s.world p) ++ (a ++ b))
    append_file-append_file valid free lt₁ lt₂ e₁ e₂ ok₁ ok₂ =
        let (co, locks, base) = appended path s valid free fuel₁ a r₁ s₁ lt₁ e₁ ok₁ in
        let (co', locks', base') =
          appended path s₁ valid (ap (find path) locks ∙ free) fuel₂ b r₂ s₂ lt₂ e₂ ok₂ in
        let p = resolve_path s.base_path path in
        let same : resolve_path s₁.base_path path ≡ p =
          ap (λ (d : Bytes). resolve_path d path) base in
        subst
          (λ q.
            contents s₁.world q ≡ some (or_nil (contents s.world p) ++ a)
            → contents s₂.world q ≡ some (or_nil (contents s.world p) ++ (a ++ b)))
          same (λ now. ground (arith, append_assoc (or_nil (contents s.world p)) a b)) co

  -- Over system calls that meet the laws: when an append to an accepted path that nobody locks has
  -- ended with a success, with its fuel, and what was there with the buffer behind it is over 100
  -- MB, then read_file, with its fuel, returns no value of this file.
  pub append_file_unreadable :
      (path : Bytes) (s s' t : Storage W) (r : VoidResult) (fuel fuel' : ℕ) (buffer got : Bytes)
      → result_ok (validate_path path) ≡ true
      → find path s.file_locker ≡ none
      → length buffer + interrupts s.world < fuel
      → append_file os fuel path buffer s ≡ ends (r, s')
      → result_ok r ≡ true
      → let c = or_nil (contents s.world (resolve_path s.base_path path)) ++ buffer in
        max_file_size < length c
        → length c + interrupts s'.world < fuel'
        → read_file os fuel' path s' ≢ ends (value got, t)
  append_file_unreadable path s s' t r fuel fuel' buffer got valid free lt e ok large lt' back =
      let (co, locks, base) = appended path s valid free fuel buffer r s' lt e ok in
      let p = resolve_path s.base_path path in
      let c = or_nil (contents s.world p) ++ buffer in
      let read =
        read_file-Read os laws fuel' path c s' valid (ap (find path) locks ∙ free)
          (ap (λ (d : Bytes). contents s'.world (resolve_path d path)) base ∙ co) lt' in
      let fits = subst (Read os laws (resolve_path s'.base_path path) c) back read in
      omega (arith, fits.1)
