-- ===== src/Protocol/Frames.antt =====
-- MessageProtocol::send_message and receive_message of src/rpc.cc, on the stream of a connection.
use diarkis.Base.{
  ℕ, ◌+◌, ◌^◌, ◌%◌, ◌≤◌, ◌<◌, ◌≡◌, refl, sym, ap, ◌∙◌, Option, none, some, Bool, true, false, [],
  ◌∷◌, ◌++◌, Bytes, length, arith, append_assoc,
}
use mathlib.Core.Path.{subst}
use diarkis.Storage.Monad.{Run, ends, blocks, spins}
use diarkis.Tcp.{Sockets, Link, send, receive_exact, replied}
use diarkis.Tcp.Laws.{StreamLaws}
use diarkis.Tcp.Sending.{Sent, send-Sent}
use diarkis.Tcp.Receiving.{Received, receive_exact-Received}
use diarkis.Protocol.{
  max_message_size, htonl, ntohl, received_or, sent_or, accepted, receive_data, receive_message,
  send_message,
}
use diarkis.Protocol.Order.{ntohl-htonl, length-htonl}

append_inj : (a b c d : Bytes) → length a ≡ length c → a ++ b ≡ c ++ d → (a ≡ c) × (b ≡ d)
append_inj [] b [] d h e = (refl, e)
append_inj [] b (y ∷ c) d h e = absurd (omega (arith, h))
append_inj (x ∷ a) b [] d h e = absurd (omega (arith, h))
append_inj (x ∷ a) b (y ∷ c) d h e = ground (arith, append_inj a b c d)

-- A message on the wire.
abbrev pub frame : Bytes → Bytes
frame message = htonl (length message) ++ message

module _ {N : Type 0} (os : Sockets N) (laws : StreamLaws os) where
  open laws use {sent, coming, interrupts}

  -- The stream has got the frame behind `old`, and what comes on the connection and the interruptions to
  -- come are as in the network `w₀`; or the connection counts as lost.
  abbrev pub Framed : N → ℕ → Bytes → Bytes → Run (Bool × Link N) → Type 0
  Framed w₀ fd old message (ends (true, l)) =
      (sent l.network fd ≡ old ++ frame message)
      × (l.connected ≡ true)
      × (l.socket_fd ≡ some fd)
      × (coming l.network fd ≡ coming w₀ fd)
      × (interrupts l.network ≤ interrupts w₀)
  Framed w₀ fd old message (ends (false, l)) = l.connected ≡ false
  Framed w₀ fd old message blocks = ⊥
  Framed w₀ fd old message spins = ⊥

  -- The message was returned, `rest` is left, the connection and what was sent on it are as in the network
  -- `w₀`, with no more calls to be interrupted; or the connection counts as lost.
  abbrev pub Taken : N → ℕ → Bytes → Bytes → Run (Option Bytes × Link N) → Type 0
  Taken w₀ fd message rest (ends (some b, l)) =
      (b ≡ message)
      × (coming l.network fd ≡ rest)
      × (l.connected ≡ true)
      × (l.socket_fd ≡ some fd)
      × (sent l.network fd ≡ sent w₀ fd)
      × (interrupts l.network ≤ interrupts w₀)
  Taken w₀ fd message rest (ends (none, l)) = l.connected ≡ false
  Taken w₀ fd message rest blocks = ⊥
  Taken w₀ fd message rest spins = ⊥

  body-Framed :
      (fuel fd : ℕ) (old message : Bytes) (l : Link N) (r : Run (Bool × Link N))
      → length message + interrupts l.network < fuel
      → Sent os laws l.network fd old (htonl (length message)) r
      → Framed l.network fd old message (sent_or r (send os fuel message))
  body-Framed fuel fd old message l (ends (true, l')) lt (so, up, fd_is, still, within) =
      go (send os fuel message l') (send-Sent os laws fuel fd message l' fd_is up (omega arith))
    where
      go :
          (r : Run (Bool × Link N))
          → Sent os laws l'.network fd (sent l'.network fd) message r
          → Framed l.network fd old message r
      go (ends (true, l'')) (so', up', fd_is', still', within') = (
        so' ∙ (ap (λ x. x ++ message) so ∙ append_assoc old (htonl (length message)) message),
        up',
        fd_is',
        still' ∙ still,
        omega (arith, within, within'),
      )
      go (ends (false, l'')) h = h.1
      go blocks h = h
      go spins h = h
  body-Framed fuel fd old message l (ends (false, l')) lt h = h.1
  body-Framed fuel fd old message l blocks lt h = h
  body-Framed fuel fd old message l spins lt h = h

  -- Over a stream that meets the laws, on an open connection, with enough fuel: send_message of a
  -- message within the limit puts its frame, length first, behind what was sent before, or the
  -- connection counts as lost.
  pub send_message-Framed :
      (fuel fd : ℕ) (message : Bytes) (l : Link N)
      → l.socket_fd ≡ some fd
      → l.connected ≡ true
      → length message ≤ max_message_size
      → 4 + length message + interrupts l.network < fuel
      → Framed l.network fd (sent l.network fd) message (send_message os fuel message l)
  unfolding send_message
  send_message-Framed fuel fd message l fd_is up small lt =
      let fits : length message % 2 ^ 32 ≡ length message = omega (arith, small) in
      let run : send_message os fuel message l
          ≡ sent_or (send os fuel (htonl (length message)) l) (send os fuel message) =
        ground (arith, small, fits) in
      rw run (
        body-Framed fuel fd (sent l.network fd) message l (send os fuel (htonl (length message)) l)
          (omega arith)
          (send-Sent os laws fuel fd (htonl (length message)) l fd_is up
            (omega (arith, length-htonl (length message)))))

  body-Taken :
      (fuel fd : ℕ) (message rest : Bytes) (l : Link N) (r : Run (Option Bytes × Link N))
      → 0 < length message
      → length message ≤ max_message_size
      → length message + interrupts l.network < fuel
      → Received os laws l.network fd 4 (frame message ++ rest) r
      → Taken l.network fd message rest (
          received_or
            (received_or r none λ length_net. replied (accepted os fuel (ntohl length_net)))
            none
            λ n. receive_data os fuel n)
  body-Taken fuel fd message rest l (ends (some b, l')) some_bytes small lt
        (so, four, up, fd_is, kept, within) =
      let (same, follows) =
        append_inj b (coming l'.network fd) (htonl (length message)) (message ++ rest)
          (four ∙ sym (length-htonl (length message)))
          (sym so ∙ append_assoc (htonl (length message)) message rest) in
      let read : ntohl b ≡ length message =
        ap ntohl same ∙ ntohl-htonl (length message) (omega (arith, small)) in
      let taken : accepted os fuel (length message) ≡ some (length message) =
        ground (arith, small, some_bytes) in
      let run : received_or (replied (accepted os fuel (ntohl b)) l') none
            (λ n. receive_data os fuel n)
          ≡ receive_exact os fuel (length message) l' =
        rw read (rw taken refl) in
      rw run (
        go (receive_exact os fuel (length message) l') (
          subst
            (λ x.
              Received os laws l'.network fd (length message) x
                (receive_exact os fuel (length message) l'))
            follows
            (receive_exact-Received os laws fuel fd (length message) l' fd_is up (omega arith))))
    where
      go :
          (r : Run (Option Bytes × Link N))
          → Received os laws l'.network fd (length message) (message ++ rest) r
          → Taken l.network fd message rest r
      go (ends (some b', l'')) (so', len, up', fd_is', kept', within') =
          let (same', follows') =
            append_inj message rest b' (coming l''.network fd) (sym len) so' in
          (sym same', sym follows', up', fd_is', kept' ∙ kept, omega (arith, within, within'))
      go (ends (none, l'')) h = h.0
      go blocks h = h
      go spins h = h
  body-Taken fuel fd message rest l (ends (none, l')) some_bytes small lt h = h.0
  body-Taken fuel fd message rest l blocks some_bytes small lt h = h
  body-Taken fuel fd message rest l spins some_bytes small lt h = h

  -- Over a stream that meets the laws, on an open connection, with enough fuel: when the frame of
  -- a message comes, not empty and within the limit, receive_message returns that message, leaves
  -- what comes behind it and sends nothing, or the connection counts as lost.
  pub receive_message-Taken :
      (fuel fd : ℕ) (message rest : Bytes) (l : Link N)
      → l.socket_fd ≡ some fd
      → l.connected ≡ true
      → coming l.network fd ≡ frame message ++ rest
      → 0 < length message
      → length message ≤ max_message_size
      → 4 + length message + interrupts l.network < fuel
      → Taken l.network fd message rest (receive_message os fuel l)
  unfolding receive_message
  receive_message-Taken fuel fd message rest l fd_is up stream some_bytes small lt =
      body-Taken fuel fd message rest l (receive_exact os fuel 4 l) some_bytes small (omega arith) (
        subst (λ x. Received os laws l.network fd 4 x (receive_exact os fuel 4 l)) stream
          (receive_exact-Received os laws fuel fd 4 l fd_is up (omega arith)))
