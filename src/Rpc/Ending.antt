-- ===== src/Rpc/Ending.antt =====
-- RpcServer::handle_connection ends.
use diarkis.Base.{
  ℕ, zero, suc, ◌+◌, ◌≤◌, ◌<◌, ◌≡◌, refl, ap, ◌∙◌, Option, none, some, Bool, true, false, ◌++◌,
  Bytes, length, ltb, text, arith, length-append, Bool-cases, inl, inr,
}
use diarkis.Commands.{
  CommandType, Command, Response, refusal, Msgpack, Try, got, threw, unpack_error, type_error,
  other_exception,
}
use diarkis.Storage.Monad.{Storage, Run, ends, blocks, spins}
use diarkis.Tcp.{Sockets, Link}
use diarkis.Tcp.Laws.{StreamLaws}
use diarkis.Protocol.{max_message_size, receive_message, send_message}
use diarkis.Protocol.Frames.{Framed, send_message-Framed}
use diarkis.Protocol.Whole.{Whole, receive_message-Whole}
use diarkis.Rpc.{
  Handlers, Session, dispatch_type, dispatch_command, send_packed, send_response,
  send_error_response, on_link, serve, serve_received, process_request, and_again,
  handle_connection,
}

module _ {N W : Type 0} (os : Sockets N) (laws : StreamLaws os) (fuel : ℕ) (msgpack : Msgpack)
    (handlers : Handlers W) (Fine : Storage W → Type 0) where
  open laws use {coming, interrupts}

  -- A message was sent, and what comes on the connection is as in the network `w₀`; or it was not sent.
  Passed : N → ℕ → Run (Bool × Link N) → Type 0
  Passed w₀ fd (ends (true, l)) =
      (l.connected ≡ true)
      × (l.socket_fd ≡ some fd)
      × (coming l.network fd ≡ coming w₀ fd)
      × (interrupts l.network ≤ interrupts w₀)
  Passed w₀ fd (ends (false, l)) = Unit {0}
  Passed w₀ fd blocks = ⊥
  Passed w₀ fd spins = ⊥

  Framed-Passed :
      (w₀ : N) (fd : ℕ) (old message : Bytes) (r : Run (Bool × Link N))
      → Framed os laws w₀ fd old message r
      → Passed w₀ fd r
  unfolding Passed
  Framed-Passed w₀ fd old message (ends (true, l)) (so, up, fd_is, still, within) =
      (up, fd_is, still, within)
  Framed-Passed w₀ fd old message (ends (false, l)) h = tt
  Framed-Passed w₀ fd old message blocks h = h
  Framed-Passed w₀ fd old message spins h = h

  send_message-Passed :
      (fd : ℕ) (message : Bytes) (l : Link N)
      → l.socket_fd ≡ some fd
      → l.connected ≡ true
      → 4 + max_message_size + interrupts l.network < fuel
      → Passed l.network fd (send_message os fuel message l)
  unfolding Passed send_message
  send_message-Passed fd message l fd_is up lt =
      elim (Bool-cases (ltb max_message_size (length message))) [
        | inl big ↦ rw big tt
        | inr fits ↦
            Framed-Passed l.network fd (laws.sent l.network fd) message
              (send_message os fuel message l)
              (send_message-Framed os laws fuel fd message l fd_is up (ground (arith, fits))
                (ground (arith, fits, lt)))
      ]

  send_packed-Passed :
      (fd : ℕ) (t : Try Bytes) (l : Link N)
      → l.socket_fd ≡ some fd
      → l.connected ≡ true
      → 4 + max_message_size + interrupts l.network < fuel
      → Passed l.network fd (send_packed os fuel msgpack t l)
  unfolding Passed
  send_packed-Passed fd (got b) l fd_is up lt = send_message-Passed fd b l fd_is up lt
  send_packed-Passed fd (threw e) l fd_is up lt = tt

  -- A call of the state machine ended, in a storage that is fine.
  abbrev pub Answering : Run (Response × Storage W) → Type 0
  Answering (ends (response, s)) = Fine s
  Answering blocks = ⊥
  Answering spins = ⊥

  -- The connection's loop ended, in a storage that is fine.
  abbrev pub Over : Run (Session N W) → Type 0
  Over (ends c) = Fine c.storage
  Over blocks = ⊥
  Over spins = ⊥

  -- A request was processed, and less is to come on the connection than in the network `w₀`; or none was.
  -- The storage is fine.
  Moved : N → ℕ → Run (Bool × Session N W) → Type 0
  Moved w₀ fd (ends (true, c)) =
      (c.link.connected ≡ true)
      × (c.link.socket_fd ≡ some fd)
      × (length (coming c.link.network fd) < length (coming w₀ fd))
      × (interrupts c.link.network ≤ interrupts w₀)
      × Fine c.storage
  Moved w₀ fd (ends (false, c)) = Fine c.storage
  Moved w₀ fd blocks = ⊥
  Moved w₀ fd spins = ⊥

  on_link-Moved :
      (w₀ w : N) (fd : ℕ) (r : Run (Bool × Link N)) (s : Storage W)
      → Fine s
      → length (coming w fd) < length (coming w₀ fd)
      → interrupts w ≤ interrupts w₀
      → Passed w fd r
      → Moved w₀ fd (on_link os fuel msgpack handlers r s)
  unfolding Passed Moved
  on_link-Moved w₀ w fd (ends (true, l)) s fine less within (up, fd_is, still, within') =
      (up, fd_is, ground (arith, still, less), omega (arith, within, within'), fine)
  on_link-Moved w₀ w fd (ends (false, l)) s fine less within h = fine
  on_link-Moved w₀ w fd blocks s fine less within h = h
  on_link-Moved w₀ w fd spins s fine less within h = h

  error-Moved :
      (w₀ : N) (fd : ℕ) (message : Bytes) (l : Link N) (s : Storage W)
      → Fine s
      → l.socket_fd ≡ some fd
      → l.connected ≡ true
      → 4 + max_message_size + interrupts l.network < fuel
      → Moved w₀ fd
          (on_link os fuel msgpack handlers (send_error_response os fuel msgpack message l) s)
  unfolding Passed Moved send_error_response send_response
  error-Moved w₀ fd message l s fine fd_is up lt =
      go (send_packed os fuel msgpack (msgpack.pack_response (refusal message)) l) refl
        (send_packed-Passed fd (msgpack.pack_response (refusal message)) l fd_is up lt)
    where
      go :
          (r : Run (Bool × Link N))
          → send_packed os fuel msgpack (msgpack.pack_response (refusal message)) l ≡ r
          → Passed l.network fd r
          → Moved w₀ fd
              (on_link os fuel msgpack handlers (send_error_response os fuel msgpack message l) s)
      go (ends (b, l')) e h = rw e fine
      go blocks e h = elim h [ ]
      go spins e h = elim h [ ]

  module _
      (writes_end : (cmd : Command) (s : Storage W)
        → Fine s
        → Answering (handlers.apply_write_command cmd s))
      (reads_end : (cmd : Command) (s : Storage W)
        → Fine s
        → Answering (handlers.apply_read_command cmd s)) where
    dispatch_type-Answering :
        (t : CommandType) (cmd : Command) (s : Storage W)
        → Fine s
        → Answering (dispatch_type handlers t cmd s)
    dispatch_type-Answering CommandType.write_file cmd s fine = writes_end cmd s fine
    dispatch_type-Answering CommandType.append_file cmd s fine = writes_end cmd s fine
    dispatch_type-Answering CommandType.create_file cmd s fine = writes_end cmd s fine
    dispatch_type-Answering CommandType.create_dir cmd s fine = writes_end cmd s fine
    dispatch_type-Answering CommandType.delete_file cmd s fine = writes_end cmd s fine
    dispatch_type-Answering CommandType.delete_dir cmd s fine = writes_end cmd s fine
    dispatch_type-Answering CommandType.rename cmd s fine = writes_end cmd s fine
    dispatch_type-Answering CommandType.read_file cmd s fine = reads_end cmd s fine
    dispatch_type-Answering CommandType.list_dir cmd s fine = reads_end cmd s fine
    dispatch_type-Answering (CommandType.other n) cmd s fine = fine

    -- A run that ended is one of ends.
    Answering-cases :
        (r : Run (Response × Storage W))
        → Answering r
        → (response : Response) × ((t : Storage W) × ((r ≡ ends (response, t)) × Fine t))
    Answering-cases (ends (response, t)) fine = (response, (t, (refl, fine)))
    Answering-cases blocks h = elim h [ ]
    Answering-cases spins h = elim h [ ]

    serve-Moved :
        (w₀ : N) (fd : ℕ) (t : Try Command) (l : Link N) (s : Storage W)
        → Fine s
        → l.socket_fd ≡ some fd
        → l.connected ≡ true
        → 4 + max_message_size + interrupts l.network < fuel
        → length (coming l.network fd) < length (coming w₀ fd)
        → interrupts l.network ≤ interrupts w₀
        → Moved w₀ fd (serve os fuel msgpack handlers t (record { link = l; storage = s }))
    unfolding send_response dispatch_command
    serve-Moved w₀ fd (got cmd) l s fine fd_is up lt less within =
        let (response, (t, (done, fine'))) =
          Answering-cases (dispatch_type handlers cmd.type cmd s)
            (dispatch_type-Answering cmd.type cmd s fine) in
        rw done (
          on_link-Moved w₀ l.network fd
            (send_packed os fuel msgpack (msgpack.pack_response response) l) t fine' less within
            (send_packed-Passed fd (msgpack.pack_response response) l fd_is up lt))
    serve-Moved w₀ fd (threw (unpack_error w)) l s fine fd_is up lt less within =
        error-Moved w₀ fd (text "Deserialization error") l s fine fd_is up lt
    serve-Moved w₀ fd (threw (type_error w)) l s fine fd_is up lt less within =
        error-Moved w₀ fd (text "Type conversion error") l s fine fd_is up lt
    serve-Moved w₀ fd (threw (other_exception w)) l s fine fd_is up lt less within =
        error-Moved w₀ fd (text "Processing error: " ++ w) l s fine fd_is up lt

    serve_received-Moved :
        (w₀ : N) (fd : ℕ) (r : Run (Option Bytes × Link N)) (s : Storage W)
        → Fine s
        → 4 + max_message_size + interrupts w₀ < fuel
        → Whole os laws w₀ fd r
        → Moved w₀ fd (serve_received os fuel msgpack handlers r s)
    unfolding Moved
    serve_received-Moved w₀ fd (ends (some b, l)) s fine lt
          ((header, (so, four, said)), some_bytes, small, up, fd_is, kept, within) =
        let lengths : length (coming w₀ fd) ≡ length header + length (b ++ coming l.network fd) =
          ap length so ∙ length-append header (b ++ coming l.network fd) in
        serve-Moved w₀ fd (msgpack.unpack_command b) l s fine fd_is up (omega (arith, lt, within))
          (omega (arith, lengths, four, length-append b (coming l.network fd))) within
    serve_received-Moved w₀ fd (ends (none, l)) s fine lt h = fine
    serve_received-Moved w₀ fd blocks s fine lt h = h
    serve_received-Moved w₀ fd spins s fine lt h = h

    -- The rounds behind a processed request, from the sessions with less to come.
    and_again-Over :
        (requests fd : ℕ) (w₀ : N) (r : Run (Bool × Session N W))
        → ((c : Session N W)
            → c.link.socket_fd ≡ some fd
            → interrupts c.link.network ≤ interrupts w₀
            → length (coming c.link.network fd) < length (coming w₀ fd)
            → Fine c.storage
            → Over (handle_connection os fuel msgpack handlers requests c))
        → Moved w₀ fd r
        → Over (
            and_again os fuel msgpack handlers r
              (handle_connection os fuel msgpack handlers requests))
    unfolding Moved
    and_again-Over requests fd w₀ (ends (true, c)) again (up, fd_is, less, within, fine) =
        again c fd_is within less fine
    and_again-Over requests fd w₀ (ends (false, c)) again h = h
    and_again-Over requests fd w₀ blocks again h = h
    and_again-Over requests fd w₀ spins again h = h

    -- Over a stream that meets the laws, on an open connection, with fuel above the limit on
    -- messages and the interrupted calls, from a storage with a property such that from every
    -- storage with it the calls of the state machine end in one with it: handle_connection ends,
    -- whatever the peer sends, within as many rounds as there are bytes to come, and one, and
    -- leaves a storage with that property.
    pub handle_connection-ends :
        (requests fd : ℕ) (c : Session N W)
        → c.link.socket_fd ≡ some fd
        → 4 + max_message_size + interrupts c.link.network < fuel
        → length (coming c.link.network fd) < requests
        → Fine c.storage
        → Over (handle_connection os fuel msgpack handlers requests c)
    unfolding handle_connection process_request
    handle_connection-ends zero fd c fd_is lt enough fine = absurd (omega (arith, enough))
    handle_connection-ends (suc requests) fd c fd_is lt enough fine =
        elim (Bool-cases c.link.connected) [
          | inr down ↦
              let run : handle_connection os fuel msgpack handlers (suc requests) c ≡ ends c =
                ground arith in
              rw run fine
          | inl up ↦
              let run : handle_connection os fuel msgpack handlers (suc requests) c
                  ≡ and_again os fuel msgpack handlers (process_request os fuel msgpack handlers c)
                      (handle_connection os fuel msgpack handlers requests) =
                ground arith in
              rw run (
                and_again-Over requests fd c.link.network
                  (process_request os fuel msgpack handlers c)
                  (λ c₁ fd_is' within less fine₁.
                    handle_connection-ends requests fd c₁ fd_is' (omega (arith, lt, within))
                      (omega (arith, less, enough)) fine₁)
                  (serve_received-Moved c.link.network fd (receive_message os fuel c.link) c.storage
                    fine lt (receive_message-Whole os laws fuel fd c.link fd_is up lt)))
        ]
