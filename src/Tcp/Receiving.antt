-- ===== src/Tcp/Receiving.antt =====
-- What TcpConnection::receive_exact takes from the stream.
use diarkis.Base.{
  ℕ, zero, suc, ◌+◌, ◌-◌, ◌≤◌, ◌<◌, ◌≡◌, refl, Option, none, some, true, false, [], ◌++◌, Bytes,
  length, ltb, is_empty, inl, inr, arith, Bool-cases, length-append, append_assoc,
}
use diarkis.Posix.Laws.{Outcome-cases}
use diarkis.Storage.Monad.{Run, ends, blocks, spins}
use diarkis.Storage.Scope.{is_eintr}
use diarkis.Tcp.{Sockets, Link, receive_loop, receive_exact}
use diarkis.Tcp.Laws.{StreamLaws}

module _ {N : Type 0} (os : Sockets N) (laws : StreamLaws os) where
  open laws use {sent, coming, interrupts}

  -- The next `size` bytes of the stream, the connection and what was sent on it as in the network `w₀`,
  -- and no more calls to be interrupted than there; or the connection counts as lost.
  abbrev pub Received : N → ℕ → ℕ → Bytes → Run (Option Bytes × Link N) → Type 0
  Received w₀ fd size stream (ends (some b, l)) =
      (stream ≡ b ++ coming l.network fd)
      × (length b ≡ size)
      × (l.connected ≡ true)
      × (l.socket_fd ≡ some fd)
      × (sent l.network fd ≡ sent w₀ fd)
      × (interrupts l.network ≤ interrupts w₀)
  Received w₀ fd size stream (ends (none, l)) = (l.connected ≡ false) × (l.socket_fd ≡ some fd)
  Received w₀ fd size stream blocks = ⊥
  Received w₀ fd size stream spins = ⊥

  receive_loop-Received :
      (w₀ : N) (fuel fd size : ℕ) (got stream : Bytes) (l : Link N)
      → l.socket_fd ≡ some fd
      → l.connected ≡ true
      → stream ≡ got ++ coming l.network fd
      → length got ≤ size
      → sent l.network fd ≡ sent w₀ fd
      → interrupts l.network ≤ interrupts w₀
      → (size - length got) + interrupts l.network < fuel
      → Received w₀ fd size stream (receive_loop os fuel fd size got l)
  unfolding receive_loop
  receive_loop-Received w₀ zero fd size got stream l fd_is up so le kept within lt =
      absurd (omega arith)
  receive_loop-Received w₀ (suc fuel) fd size got stream l fd_is up so le kept within lt =
      elim (Bool-cases (ltb (length got) size)) [
        | inr done ↦ ground arith
        | inl more ↦ elim (Outcome-cases (os.receive_bytes fd (size - length got) l.network)) [
          | inl (b, w, e) ↦
              let law = laws.receive_returned fd (size - length got) b l.network w e in
              elim (Bool-cases (is_empty b)) [
                | inl nothing ↦ ground arith
                | inr some_bytes ↦ ground (
                  arith,
                  law,
                  length-append got b,
                  append_assoc got b (coming w fd),
                  receive_loop-Received w₀ fuel fd size (got ++ b) stream
                      (record l { network = w }),
                )
              ]
          | inr (err, w, e) ↦
              let law = laws.receive_failed fd (size - length got) err l.network w e in
              elim (Bool-cases (is_eintr err)) [
                | inl again ↦ ground (
                  arith,
                  law,
                  receive_loop-Received w₀ fuel fd size got stream (record l { network = w }),
                )
                | inr fatal ↦ ground arith
              ]
        ]
      ]

  -- Over a stream that meets the laws, with fuel above the size and the interruptions to come,
  -- receive_exact ends on an open connection: it returns exactly the next `size` bytes of the
  -- stream, leaves the rest and sends nothing, or it returns false and the connection counts as
  -- lost.
  pub receive_exact-Received :
      (fuel fd size : ℕ) (l : Link N)
      → l.socket_fd ≡ some fd
      → l.connected ≡ true
      → size + interrupts l.network < fuel
      → Received l.network fd size (coming l.network fd) (receive_exact os fuel size l)
  unfolding receive_exact
  receive_exact-Received fuel fd size l fd_is up lt =
      let run : receive_exact os fuel size l ≡ receive_loop os fuel fd size [] l = ground arith in
      rw run (
        receive_loop-Received l.network fuel fd size [] (coming l.network fd) l fd_is up refl
          (omega arith) refl (omega arith) (omega arith))
