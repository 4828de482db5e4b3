-- ===== src/TcpServer/Invariant.antt =====
-- What holds of a TcpServer between any two steps of its threads.
use diarkis.Base.{
  mem, no_middle, ℕ, ◌<◌, Option, none, some, Bool, true, false, List, [], ◌∷◌, ◌++◌, ◌≡◌, sym, ◌∙◌,
  ◌⊎◌, inl, inr, Bool-cases, arith, All,
}
use diarkis.TcpServer.{
  AcceptPoint, testing, accepting, accepted, added, left, Phase, handling, closing, removing,
  finished, Thread, OwnerPoint, idle, closing_listener, joining_accept, cleaning, joining_threads,
  looping, locking, Server,
}

abbrev pub is_gone : Phase → Bool
is_gone removing = true
is_gone finished = true
is_gone handling = false
is_gone closing = false

-- A thread's connection has been accepted, and is closed once the thread is behind its close.
abbrev pub ThreadOk : ℕ → List ℕ → Thread → Type 0
ThreadOk n connected t = (t.conn < n) × (is_gone t.phase ≡ true → mem t.conn connected ≡ false)

-- The connection that accept_loop has in hand was accepted.
abbrev pub PendingOk : ℕ → Option AcceptPoint → Type 0
PendingOk n (some (accepted i)) = i < n
PendingOk n (some (added i)) = i < n
PendingOk n (some testing) = Unit {0}
PendingOk n (some accepting) = Unit {0}
PendingOk n (some left) = Unit {0}
PendingOk n none = Unit {0}

module _ {N : Type 0} where
  -- Every connection that is still connected is among the active ones, or accept_loop is about to add it.
  abbrev pub Tracked : Server N → Type 0
  Tracked s =
      (i : ℕ)
      → mem i s.connected ≡ true
      → (mem i s.active_connections ≡ true) ⊎ (s.accept_thread ≡ some (accepted i))

  -- The server has no socket, no thread and no connection.
  abbrev pub Released : Server N → Type 0
  Released s =
      (s.server_fd ≡ none)
      × (s.accept_thread ≡ none)
      × (s.connection_threads ≡ [])
      × (s.active_connections ≡ [])

  -- Only these connections are still connected.
  abbrev pub Remaining : List ℕ → Server N → Type 0
  Remaining is s = (i : ℕ) → mem i s.connected ≡ true → mem i is ≡ true

  -- How far stop has come.
  abbrev pub OwnerOk : OwnerPoint → Server N → Type 0
  OwnerOk idle s = (s.running ≡ true) ⊎ ((s.running ≡ false) × Released s)
  OwnerOk closing_listener s = (s.running ≡ false) × (s.should_stop ≡ true)
  OwnerOk joining_accept s = (s.running ≡ false) × (s.should_stop ≡ true) × (s.server_fd ≡ none)
  OwnerOk cleaning s =
      (s.running ≡ false) × (s.should_stop ≡ true) × (s.server_fd ≡ none) × (s.accept_thread ≡ none)
  OwnerOk (looping is) s =
      (s.running ≡ false)
      × (s.should_stop ≡ true)
      × (s.server_fd ≡ none)
      × (s.accept_thread ≡ none)
      × Remaining is s
  OwnerOk (locking i is) s =
      (s.running ≡ false)
      × (s.should_stop ≡ true)
      × (s.server_fd ≡ none)
      × (s.accept_thread ≡ none)
      × Remaining is s
      × (mem i s.connected ≡ false)
  OwnerOk joining_threads s =
      (s.running ≡ false)
      × (s.should_stop ≡ true)
      × (s.server_fd ≡ none)
      × (s.accept_thread ≡ none)
      × (s.active_connections ≡ [])

  pub record Valid (s : Server N) : Type 0 where
    pub tracked : Tracked s
    pub threads : All (ThreadOk s.next_conn s.connected) s.connection_threads
    pub pending : PendingOk s.next_conn s.accept_thread
    pub owned : OwnerOk s.owner s

  -- The steps of accept_loop leave stop where it is.
  pub accept-OwnerOk :
      (o : OwnerPoint) (s t : Server N) (p : AcceptPoint)
      → s.accept_thread ≡ some p
      → t.running ≡ s.running
      → t.should_stop ≡ s.should_stop
      → t.server_fd ≡ s.server_fd
      → OwnerOk o s
      → OwnerOk o t
  accept-OwnerOk idle s t p e r b f (inl up) = inl (r ∙ up)
  accept-OwnerOk idle s t p e r b f (inr (off, released)) = ground (arith, released)
  accept-OwnerOk closing_listener s t p e r b f (off, stop) = (r ∙ off, b ∙ stop)
  accept-OwnerOk joining_accept s t p e r b f (off, stop, no_fd) = (r ∙ off, b ∙ stop, f ∙ no_fd)
  accept-OwnerOk cleaning s t p e r b f (off, stop, no_fd, no_accept) = ground (arith, no_accept)
  accept-OwnerOk (looping is) s t p e r b f (off, stop, no_fd, no_accept, more) =
      ground (arith, no_accept)
  accept-OwnerOk (locking i is) s t p e r b f (off, stop, no_fd, no_accept, rest, down) =
      ground (arith, no_accept)
  accept-OwnerOk joining_threads s t p e r b f (off, stop, no_fd, no_accept, more) =
      ground (arith, no_accept)

  -- So do the steps of a connection's thread.
  pub thread-OwnerOk :
      (o : OwnerPoint) (s t : Server N) (before after : List Thread) (x : Thread)
      → s.connection_threads ≡ before ++ x ∷ after
      → t.running ≡ s.running
      → t.should_stop ≡ s.should_stop
      → t.server_fd ≡ s.server_fd
      → t.accept_thread ≡ s.accept_thread
      → (s.active_connections ≡ [] → t.active_connections ≡ [])
      → ((i : ℕ) → mem i t.connected ≡ true → mem i s.connected ≡ true)
      → OwnerOk o s
      → OwnerOk o t
  thread-OwnerOk idle s t before after x e r b f a c d (inl up) = inl (r ∙ up)
  thread-OwnerOk idle s t before after x e r b f a c d (inr (off, released)) =
      elim (no_middle before after x (sym e ∙ released.2)) [ ]
  thread-OwnerOk closing_listener s t before after x e r b f a c d (off, stop) = (r ∙ off, b ∙ stop)
  thread-OwnerOk joining_accept s t before after x e r b f a c d (off, stop, no_fd) =
      (r ∙ off, b ∙ stop, f ∙ no_fd)
  thread-OwnerOk cleaning s t before after x e r b f a c d (off, stop, no_fd, no_accept) =
      (r ∙ off, b ∙ stop, f ∙ no_fd, a ∙ no_accept)
  thread-OwnerOk (looping is) s t before after x e r b f a c d (off, stop, no_fd, no_accept, rest) =
      (r ∙ off, b ∙ stop, f ∙ no_fd, a ∙ no_accept, λ i up. rest i (d i up))
  thread-OwnerOk (locking i is) s t before after x e r b f a c d
        (off, stop, no_fd, no_accept, rest, down) =
      (
        r ∙ off,
        b ∙ stop,
        f ∙ no_fd,
        a ∙ no_accept,
        λ j up. rest j (d j up),
        elim (Bool-cases (mem i t.connected)) [
          | inl up ↦ ground (arith, d i up, down)
          | inr still ↦ still
        ],
      )
  thread-OwnerOk joining_threads s t before after x e r b f a c d
        (off, stop, no_fd, no_accept, none_active) =
      (r ∙ off, b ∙ stop, f ∙ no_fd, a ∙ no_accept, c none_active)
