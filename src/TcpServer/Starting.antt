-- ===== src/TcpServer/Starting.antt =====
-- What TcpServer::start leaves, and the descriptors that are open behind it.
use diarkis.Base.{
  erase_first, ℕ, ◌||◌, Option, none, some, Bool, true, false, List, ◌∷◌, ◌≡◌, refl, ◌∙◌, ap, inl,
  inr, Bool-cases, arith, Bytes,
}
use diarkis.Base.Int.{ℤ}
use diarkis.TcpServer.{
  Options, Listener, Server, testing, create_socket, bind_socket, listen_socket, close_socket,
  is_any, or_close, launched, start,
}

-- What start relies on of the calls: `descriptors` are the open ones, and `listens` those that ::listen has
-- made take connections.
pub record ListenerLaws {N : Type 0} (listener : Listener N) : Type 0 where
  pub descriptors : N → List ℕ
  pub listens : ℕ → N → Bool
  pub opened :
      (fd : ℕ) (w w' : N)
      → listener.open_socket w ≡ (some fd, w')
      → descriptors w' ≡ fd ∷ descriptors w
  pub not_opened : (w w' : N) → listener.open_socket w ≡ (none, w') → descriptors w' ≡ descriptors w
  pub reuse_set : (fd : ℕ) (w : N) → descriptors (listener.set_reuse fd w) ≡ descriptors w
  pub bound :
      (fd port : ℕ) (address : Bytes) (w : N)
      → descriptors (listener.bind_to fd address port w).1 ≡ descriptors w
  pub listening :
      (fd : ℕ) (backlog : ℤ) (w : N)
      → descriptors (listener.listen_on fd backlog w).1 ≡ descriptors w
  pub made_listen :
      (fd : ℕ) (backlog : ℤ) (w w' : N)
      → listener.listen_on fd backlog w ≡ (true, w')
      → listens fd w' ≡ true
  pub shut_down : (fd : ℕ) (w : N) → descriptors (listener.shutdown_socket fd w) ≡ descriptors w
  pub closed :
      (fd : ℕ) (w : N) → descriptors (listener.close_fd fd w) ≡ erase_first fd (descriptors w)

module _ {N : Type 0} (listener : Listener N) (laws : ListenerLaws listener) (opts : Options) where
  open laws use {descriptors, listens}

  -- The server runs, and the new socket that it listens on is the only descriptor more; or it does not run,
  -- and all is as before, with no descriptor more.
  pub data Started (s : Server N) : Bool × Server N → Type 0 where
    runs :
        (fd : ℕ) (w : N)
        → descriptors w ≡ fd ∷ descriptors s.network
        → listens fd w ≡ true
        → Started s (
          true,
          record s {
            server_fd = some fd;
            running = true;
            should_stop = false;
            accept_thread = some testing;
            network = w;
          },
        )
    fails :
        (w : N)
        → descriptors w ≡ descriptors s.network
        → Started s (false, record s { server_fd = none; network = w })

  abbrev shut : ℕ → N → N
  shut fd w = listener.close_fd fd (listener.shutdown_socket fd w)

  descriptors-shut :
      (fd : ℕ) (w w₀ : N)
      → descriptors w ≡ fd ∷ descriptors w₀
      → descriptors (shut fd w) ≡ descriptors w₀
  descriptors-shut fd w w₀ h =
      laws.closed fd (listener.shutdown_socket fd w)
      ∙ (ap (erase_first fd) (laws.shut_down fd w ∙ h) ∙ ground arith)

  abbrev opened_on : Server N → ℕ → N → Server N
  opened_on s fd w = record s { server_fd = some fd; network = w }

  abbrev behind_create : Server N → Bool × Server N
  behind_create s₁ =
      or_close listener (bind_socket listener opts s₁)
        λ s₂. or_close listener (listen_socket listener opts s₂) (launched listener)

  -- The network behind a bind, and behind a listen.
  abbrev bound_to : ℕ → N → Bool × N
  bound_to fd w = listener.bind_to fd opts.address opts.port w

  abbrev listening_on : ℕ → N → Bool × N
  listening_on fd w = listener.listen_on fd opts.listen_backlog w

  listen-Started :
      (fd : ℕ) (w : N) (s : Server N)
      → descriptors w ≡ fd ∷ descriptors s.network
      → Started s
          (or_close listener (listen_socket listener opts (opened_on s fd w)) (launched listener))
  unfolding listen_socket close_socket
  listen-Started fd w s held =
      let w' = (listening_on fd w).1 in
      let held' = laws.listening fd opts.listen_backlog w ∙ held in
      elim (Bool-cases (listening_on fd w).0) [
        | inr deaf ↦
            let run : or_close listener (listen_socket listener opts (opened_on s fd w))
                  (launched listener)
                ≡ (false, record s { server_fd = none; network = shut fd w' }) =
              ground arith in
            rw run (fails _ (descriptors-shut fd w' s.network held'))
        | inl hears ↦
            let run : or_close listener (listen_socket listener opts (opened_on s fd w))
                  (launched listener)
                ≡ (
                  true,
                  record s {
                    server_fd = some fd;
                    running = true;
                    should_stop = false;
                    accept_thread = some testing;
                    network = w';
                  },
                ) =
              ground arith in
            rw run (
              runs fd _ held'
                (laws.made_listen fd opts.listen_backlog w w' (ground (arith, hears))))
      ]

  behind_create-Started :
      (fd : ℕ) (w : N) (s : Server N)
      → descriptors w ≡ fd ∷ descriptors s.network
      → Started s (behind_create (opened_on s fd w))
  unfolding bind_socket close_socket
  behind_create-Started fd w s held =
      let w' = (bound_to fd w).1 in
      let held' = laws.bound fd opts.port opts.address w ∙ held in
      elim (Bool-cases (is_any listener opts.address || listener.is_address opts.address)) [
        | inr bad ↦
            let run : behind_create (opened_on s fd w)
                ≡ (false, record s { server_fd = none; network = shut fd w }) =
              ground arith in
            rw run (fails _ (descriptors-shut fd w s.network held))
        | inl good ↦ elim (Bool-cases (bound_to fd w).0) [
          | inr unbound ↦
              let run : behind_create (opened_on s fd w)
                  ≡ (false, record s { server_fd = none; network = shut fd w' }) =
                ground arith in
              rw run (fails _ (descriptors-shut fd w' s.network held'))
          | inl is_bound ↦
              let run : behind_create (opened_on s fd w)
                  ≡ or_close listener (listen_socket listener opts (opened_on s fd w'))
                      (launched listener) =
                ground arith in
              rw run (listen-Started fd w' s held')
        ]
      ]

  -- Over socket calls that meet the laws, for a server that does not run: start ends with a server
  -- that runs and has one descriptor more, which it listens on, or it fails, and leaves the server
  -- without a socket, otherwise as it was, and no descriptor more open.
  pub start-Started : (s : Server N) → s.running ≡ false → Started s (start listener opts s)
  unfolding start create_socket
  start-Started s off = go (listener.open_socket s.network) refl
    where
      go :
          (r : Option ℕ × N)
          → listener.open_socket s.network ≡ r
          → Started s (start listener opts s)
      go (none, w) e =
          let run : start listener opts s ≡ (false, record s { server_fd = none; network = w }) =
            ground arith in
          rw run (fails w (laws.not_opened s.network w e))
      go (some fd, w) e =
          let run : start listener opts s
              ≡ behind_create (opened_on s fd (listener.set_reuse fd w)) =
            ground arith in
          rw run (
            behind_create-Started fd (listener.set_reuse fd w) s
              (laws.reuse_set fd w ∙ laws.opened fd s.network w e))
