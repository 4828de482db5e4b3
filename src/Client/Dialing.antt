-- ===== src/Client/Dialing.antt =====
-- The client's connecting: what the constructor of its TcpConnection leaves.
mod Examples
use diarkis.Base.{
  ℕ, Option, none, some, true, false, List, ◌∷◌, Bytes, ◌≡◌, refl, ◌∙◌, ap, inl, inr, Bool-cases,
  arith, erase_first,
}
use diarkis.Client.Connection.{TcpConnection, Dialer, dial}

-- What the constructor relies on of the calls: `descriptors` are the open ones, and `peer` the address and
-- port that ::connect has connected one to.
pub record DialerLaws {N : Type 0} (dialer : Dialer N) : Type 0 where
  pub descriptors : N → List ℕ
  pub peer : ℕ → N → Option (Bytes × ℕ)
  pub opened :
      (fd : ℕ) (w w' : N)
      → dialer.open_socket w ≡ (some fd, w')
      → descriptors w' ≡ fd ∷ descriptors w
  pub not_opened : (w w' : N) → dialer.open_socket w ≡ (none, w') → descriptors w' ≡ descriptors w
  pub options_set : (fd : ℕ) (w : N) → descriptors (dialer.set_options fd w) ≡ descriptors w
  pub connected :
      (fd port : ℕ) (address : Bytes) (w : N)
      → descriptors (dialer.connect_socket fd address port w).1 ≡ descriptors w
  pub has_peer :
      (fd port : ℕ) (address : Bytes) (w w' : N)
      → dialer.connect_socket fd address port w ≡ (true, w')
      → peer fd w' ≡ some (address, port)
  pub closed :
      (fd : ℕ) (w : N)
      → descriptors (dialer.sockets.close_socket fd w) ≡ erase_first fd (descriptors w)

module _ {N : Type 0} (dialer : Dialer N) (laws : DialerLaws dialer) where
  open laws use {descriptors, peer}

  -- The connection is open on the one descriptor more, and connected to its address and port; or it is not,
  -- and no descriptor more is open.
  pub data Dialled (w₀ : N) (address : Bytes) (port : ℕ) : TcpConnection N → Type 0 where
    open_on :
        (fd : ℕ) (w : N)
        → descriptors w ≡ fd ∷ descriptors w₀
        → peer fd w ≡ some (address, port)
        → Dialled w₀ address port (record { socket_fd = some fd; network = w })
    not_open :
        (w : N)
        → descriptors w ≡ descriptors w₀
        → Dialled w₀ address port (record { socket_fd = none; network = w })

  -- Over socket calls that meet the laws: the constructor of the client's connection ends with an
  -- open socket, one descriptor more, which is connected to the address and port, or without a
  -- socket, and no descriptor more.
  pub dial-Dialled :
      (address : Bytes) (port : ℕ) (w : N) → Dialled w address port (dial dialer address port w)
  unfolding dial
  dial-Dialled address port w = go (dialer.open_socket w) refl
    where
      go :
          (r : Option ℕ × N)
          → dialer.open_socket w ≡ r
          → Dialled w address port (dial dialer address port w)
      go (none, w₁) e =
          let run : dial dialer address port w ≡ record { socket_fd = none; network = w₁ } =
            ground arith in
          rw run (not_open w₁ (laws.not_opened w w₁ e))
      go (some fd, w₁) e =
          let w₂ = dialer.set_options fd w₁ in
          let w₃ = (dialer.connect_socket fd address port w₂).1 in
          let held : descriptors w₂ ≡ fd ∷ descriptors w =
            laws.options_set fd w₁ ∙ laws.opened fd w w₁ e in
          let held' : descriptors w₃ ≡ fd ∷ descriptors w =
            laws.connected fd port address w₂ ∙ held in
          let shut : (v : N)
              → descriptors v ≡ fd ∷ descriptors w
              → descriptors (dialer.sockets.close_socket fd v) ≡ descriptors w =
            λ v h. laws.closed fd v ∙ (ap (erase_first fd) h ∙ ground arith) in
          elim (Bool-cases (dialer.is_address address)) [
            | inr bad ↦
                let run : dial dialer address port w
                    ≡ record { socket_fd = none; network = dialer.sockets.close_socket fd w₂ } =
                  ground arith in
                rw run (not_open _ (shut w₂ held))
            | inl good ↦ elim (Bool-cases (dialer.connect_socket fd address port w₂).0) [
              | inr away ↦
                  let run : dial dialer address port w
                      ≡ record { socket_fd = none; network = dialer.sockets.close_socket fd w₃ } =
                    ground arith in
                  rw run (not_open _ (shut w₃ held'))
              | inl there ↦
                  let run : dial dialer address port w
                      ≡ record { socket_fd = some fd; network = w₃ } =
                    ground arith in
                  rw run (
                    open_on fd w₃ held'
                      (laws.has_peer fd port address w₂ w₃ (ground (arith, there))))
            ]
          ]
