-- ===== src/Tcp/Sending.antt =====
-- What TcpConnection::send passes on.
use diarkis.Base.{
  ℕ, zero, suc, ◌+◌, ◌-◌, ◌≤◌, ◌<◌, ◌==◌, ◌≡◌, refl, sym, some, Bool, true, false, ◌++◌, Bytes,
  length, take, drop, ltb, inl, inr, arith, Bool-cases, length-drop, take-add, take_of_le, ◌∙◌,
  append_assoc, append-nil,
}
use diarkis.Storage.Monad.{Run, ends, blocks, spins}
use diarkis.Storage.Scope.{is_eintr}
use diarkis.Posix.Laws.{Outcome-cases}
use diarkis.Tcp.{Sockets, Link, send_loop, send}
use diarkis.Tcp.Laws.{StreamLaws}

module _ {N : Type 0} (os : Sockets N) (laws : StreamLaws os) where
  open laws use {sent, coming, interrupts}

  -- All of the buffer is behind `old`, and the connection, what comes on it and the interruptions to come
  -- are as in the network `w₀`; or a part of the buffer is sent, and the connection counts as lost.
  abbrev pub Sent : N → ℕ → Bytes → Bytes → Run (Bool × Link N) → Type 0
  Sent w₀ fd old buffer (ends (true, l)) =
      (sent l.network fd ≡ old ++ buffer)
      × (l.connected ≡ true)
      × (l.socket_fd ≡ some fd)
      × (coming l.network fd ≡ coming w₀ fd)
      × (interrupts l.network ≤ interrupts w₀)
  Sent w₀ fd old buffer (ends (false, l)) =
      ((k : ℕ) × (sent l.network fd ≡ old ++ take k buffer))
      × (l.connected ≡ false)
      × (l.socket_fd ≡ some fd)
  Sent w₀ fd old buffer blocks = ⊥
  Sent w₀ fd old buffer spins = ⊥

  send_loop-Sent :
      (w₀ : N) (fuel fd total : ℕ) (old buffer : Bytes) (l : Link N)
      → l.socket_fd ≡ some fd
      → l.connected ≡ true
      → sent l.network fd ≡ old ++ take total buffer
      → total ≤ length buffer
      → coming l.network fd ≡ coming w₀ fd
      → interrupts l.network ≤ interrupts w₀
      → (length buffer - total) + interrupts l.network < fuel
      → Sent w₀ fd old buffer (send_loop os fuel fd buffer total l)
  unfolding send_loop
  send_loop-Sent w₀ zero fd total old buffer l fd_is up so le still within lt = absurd (omega arith)
  send_loop-Sent w₀ (suc fuel) fd total old buffer l fd_is up so le still within lt =
      elim (Bool-cases (ltb total (length buffer))) [
        | inr done ↦ ground (arith, take_of_le total buffer)
        | inl more ↦ elim (Outcome-cases (os.send_bytes fd (drop total buffer) l.network)) [
          | inl (n, w, e) ↦
              let law = laws.send_returned fd n (drop total buffer) l.network w e in
              elim (Bool-cases (n == 0)) [
                | inl nothing ↦
                    let stop : send_loop os (suc fuel) fd buffer total l
                        ≡ ends (false, record l { network = w; connected = false }) =
                      ground arith in
                    rw stop (
                      (
                        total + n,
                        ground (
                          arith,
                          law,
                          length-drop total buffer,
                          take-add total n buffer,
                          append_assoc old (take total buffer) (take n (drop total buffer)),
                        ),
                      ),
                      refl,
                      fd_is,
                    )
                | inr some_sent ↦ ground (
                  arith,
                  law,
                  length-drop total buffer,
                  take-add total n buffer,
                  append_assoc old (take total buffer) (take n (drop total buffer)),
                  send_loop-Sent w₀ fuel fd (total + n) old buffer (record l { network = w }),
                )
              ]
          | inr (err, w, e) ↦
              let law = laws.send_failed fd (drop total buffer) err l.network w e in
              elim (Bool-cases (is_eintr err)) [
                | inl again ↦ ground (
                  arith,
                  law,
                  send_loop-Sent w₀ fuel fd total old buffer (record l { network = w }),
                )
                | inr fatal ↦
                    let stop : send_loop os (suc fuel) fd buffer total l
                        ≡ ends (false, record l { network = w; connected = false }) =
                      ground arith in
                    rw stop ((total, law.0 ∙ so), refl, fd_is)
              ]
        ]
      ]

  -- Over a stream that meets the laws, with fuel above the buffer's length and the interruptions
  -- to come, send ends on an open connection: with true it has passed on the whole buffer behind
  -- what was sent before, and with false a beginning of it, and the connection counts as lost.
  pub send-Sent :
      (fuel fd : ℕ) (buffer : Bytes) (l : Link N)
      → l.socket_fd ≡ some fd
      → l.connected ≡ true
      → length buffer + interrupts l.network < fuel
      → Sent l.network fd (sent l.network fd) buffer (send os fuel buffer l)
  unfolding send
  send-Sent fuel fd buffer l fd_is up lt =
      let run : send os fuel buffer l ≡ send_loop os fuel fd buffer 0 l = ground arith in
      rw run (
        send_loop-Sent l.network fuel fd 0 (sent l.network fd) buffer l fd_is up
          (sym (append-nil (sent l.network fd))) (omega arith) refl (omega arith) (omega arith))
