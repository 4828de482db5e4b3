-- ===== src/Protocol/Whole.antt =====
-- MessageProtocol::receive_message of src/rpc.cc, whatever comes on the stream.
use diarkis.Base.{
  ℕ, ◌+◌, ◌≤◌, ◌<◌, ◌≡◌, refl, sym, ap, ◌∙◌, Option, none, some, true, ◌++◌, Bytes, length, arith,
}
use diarkis.Storage.Monad.{Run, ends, blocks, spins}
use diarkis.Tcp.{Sockets, Link, receive_exact}
use diarkis.Tcp.Laws.{StreamLaws}
use diarkis.Tcp.Receiving.{Received, receive_exact-Received}
use diarkis.Protocol.{max_message_size, ntohl, received_or, accepted, receive_data, receive_message}

module _ {N : Type 0} (os : Sockets N) (laws : StreamLaws os) where
  open laws use {sent, coming, interrupts}

  -- Four bytes and a message came, whose length they say, within the limit; the connection and what was sent
  -- on it are as in the network `w₀`, with no more calls to be interrupted. Or no message was returned.
  abbrev pub Whole : N → ℕ → Run (Option Bytes × Link N) → Type 0
  Whole w₀ fd (ends (some b, l)) =
      ((header : Bytes) × ((coming w₀ fd ≡ header ++ (b ++ coming l.network fd))
          × (length header ≡ 4)
          × (ntohl header ≡ length b)))
      × (0 < length b)
      × (length b ≤ max_message_size)
      × (l.connected ≡ true)
      × (l.socket_fd ≡ some fd)
      × (sent l.network fd ≡ sent w₀ fd)
      × (interrupts l.network ≤ interrupts w₀)
  Whole w₀ fd (ends (none, l)) = Unit {0}
  Whole w₀ fd blocks = ⊥
  Whole w₀ fd spins = ⊥

  module _ (fuel : ℕ) where
    accepted-some :
        (m n : ℕ) → accepted os fuel m ≡ some n → (n ≡ m) × (0 < m) × (m ≤ max_message_size)
    accepted-some m n h = ground (arith, h)

    data-Whole :
        (w₀ : N) (fd n : ℕ) (header : Bytes) (l : Link N) (r : Run (Option Bytes × Link N))
        → coming w₀ fd ≡ header ++ coming l.network fd
        → length header ≡ 4
        → ntohl header ≡ n
        → 0 < n
        → n ≤ max_message_size
        → sent l.network fd ≡ sent w₀ fd
        → interrupts l.network ≤ interrupts w₀
        → Received os laws l.network fd n (coming l.network fd) r
        → Whole w₀ fd r
    data-Whole w₀ fd n header l (ends (some b, l')) so four said some_bytes small kept within
          (so', len, up, fd_is, kept', within') =
        (
          (header, (so ∙ ap (λ x. header ++ x) so', four, said ∙ sym len)),
          omega (arith, some_bytes, len),
          omega (arith, small, len),
          up,
          fd_is,
          kept' ∙ kept,
          omega (arith, within, within'),
        )
    data-Whole w₀ fd n header l (ends (none, l')) so four said some_bytes small kept within h = tt
    data-Whole w₀ fd n header l blocks so four said some_bytes small kept within h = h
    data-Whole w₀ fd n header l spins so four said some_bytes small kept within h = h

    length-Whole :
        (w₀ : N) (fd : ℕ) (r : Run (Option Bytes × Link N))
        → 4 + max_message_size + interrupts w₀ < fuel
        → Received os laws w₀ fd 4 (coming w₀ fd) r
        → Whole w₀ fd (
            received_or
              (received_or r none λ b l. ends (accepted os fuel (ntohl b), l))
              none
              λ n. receive_data os fuel n)
    length-Whole w₀ fd (ends (some b, l)) lt (so, four, up, fd_is, kept, within) =
        go (accepted os fuel (ntohl b)) refl
      where
        go :
            (o : Option ℕ)
            → accepted os fuel (ntohl b) ≡ o
            → Whole w₀ fd (received_or (ends (o, l)) none λ n. receive_data os fuel n)
        go none e = tt
        go (some n) e =
            let (same, some_bytes, small) = accepted-some (ntohl b) n e in
            data-Whole w₀ fd n b l (receive_exact os fuel n l) so four (sym same)
              (omega (arith, same, some_bytes)) (omega (arith, same, small)) kept within
              (receive_exact-Received os laws fuel fd n l fd_is up
                (omega (arith, same, small, lt, within)))
    length-Whole w₀ fd (ends (none, l)) lt h = tt
    length-Whole w₀ fd blocks lt h = h
    length-Whole w₀ fd spins lt h = h

    -- Over a stream that meets the laws, on an open connection, with fuel above the limit on messages:
    -- receive_message ends, whatever comes.
    pub receive_message-Whole :
        (fd : ℕ) (l : Link N)
        → l.socket_fd ≡ some fd
        → l.connected ≡ true
        → 4 + max_message_size + interrupts l.network < fuel
        → Whole l.network fd (receive_message os fuel l)
    unfolding receive_message
    receive_message-Whole fd l fd_is up lt =
        length-Whole l.network fd (receive_exact os fuel 4 l) lt
          (receive_exact-Received os laws fuel fd 4 l fd_is up (omega (arith, lt)))
