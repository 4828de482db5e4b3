-- ===== src/TcpServer/Stopped.antt =====
-- What TcpServer::stop has achieved before it joins the connections' threads, and at its end.
use diarkis.Base.{mem, ℕ, none, false, [], ◌≡◌, inl, inr, Bool-cases, arith}
use mathlib.Core.Path.{subst}
use diarkis.TcpServer.{Options, Listener, idle, joining_threads, Server}
use diarkis.TcpServer.Starting.{ListenerLaws}
use diarkis.TcpServer.Steps.{Reach}
use diarkis.TcpServer.Invariant.{Released, OwnerOk, Valid}
use diarkis.TcpServer.Preserved.{Reach-Valid}

module _ {N : Type 0} where
  -- Behind accept_loop, with no connection active, none is connected.
  pub unconnected :
      (s : Server N)
      → Valid s
      → s.accept_thread ≡ none
      → s.active_connections ≡ []
      → (i : ℕ) → mem i s.connected ≡ false
  unconnected s v no_accept none_active i = elim (Bool-cases (mem i s.connected)) [
    | inr down ↦ down
    | inl up ↦ ground (arith, v.tracked i up)
  ]

module _ {N : Type 0} (listener : Listener N) (laws : ListenerLaws listener) (opts : Options) where
  -- In every interleaving, while stop waits for the threads of the connections, accept_loop has
  -- been left, and no connection is still connected: no thread waits for its peer.
  pub joining_threads-closed :
      (s : Server N) (i : ℕ)
      → Reach listener opts s
      → s.owner ≡ joining_threads
      → (s.accept_thread ≡ none) × (mem i s.connected ≡ false)
  joining_threads-closed s i r e =
      let v = Reach-Valid listener laws opts s r in
      let (off, stop, no_fd, no_accept, none_active) = subst (λ o. OwnerOk o s) e v.owned in
      (no_accept, unconnected s v no_accept none_active i)

  -- In every interleaving, a server that does not run, with no stop under way, has no listening
  -- socket, no thread, and no active or connected connection.
  pub stopped-Released :
      (s : Server N) (i : ℕ)
      → Reach listener opts s
      → s.owner ≡ idle
      → s.running ≡ false
      → Released s × (mem i s.connected ≡ false)
  stopped-Released s i r e off =
      let v = Reach-Valid listener laws opts s r in go v (subst (λ o. OwnerOk o s) e v.owned)
    where
      go : Valid s → OwnerOk idle s → Released s × (mem i s.connected ≡ false)
      go v (inl up) = ground (arith, off)
      go v (inr (off', released)) = (released, unconnected s v released.1 released.3 i)
