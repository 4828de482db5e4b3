-- ===== src/Tcp/Closing.antt =====
-- What TcpConnection::close does, and what it does not do after a failure.
use diarkis.Base.{ℕ, ◌+◌, ◌<◌, ◌≡◌, refl, Option, none, some, Bool, true, false, Bytes, length}
use mathlib.Core.Path.{subst}
use diarkis.Storage.Monad.{ends}
use diarkis.Tcp.{Sockets, Link, send, receive_exact, closed, close}
use diarkis.Tcp.Laws.{StreamLaws}
use diarkis.Tcp.Sending.{Sent, send-Sent}
use diarkis.Tcp.Receiving.{Received, receive_exact-Received}

module _ {N : Type 0} (os : Sockets N) where
  closed_lost : (l : Link N) → l.connected ≡ false → close os l ≡ l
  unfolding close
  closed_lost l lost = rw lost refl

  closed-down :
      (b : Bool) (o : Option ℕ) (l : Link N) → l.connected ≡ b → (closed os b o l).connected ≡ false
  closed-down true (some fd) l h = refl
  closed-down true none l h = refl
  closed-down false o l h = h

  -- Closing twice is closing once.
  pub close_idem : (l : Link N) → close os (close os l) ≡ close os l
  unfolding close
  close_idem l = closed_lost (close os l) (closed-down l.connected l.socket_fd l refl)

  module _ (laws : StreamLaws os) where
    open laws use {interrupts}

    -- Over a stream that meets the laws, with enough fuel: when send has returned false on an open
    -- connection, close does nothing, and the connection still has its descriptor.
    pub close-send_failed :
        (fuel fd : ℕ) (buffer : Bytes) (l l' : Link N)
        → l.socket_fd ≡ some fd
        → l.connected ≡ true
        → length buffer + interrupts l.network < fuel
        → send os fuel buffer l ≡ ends (false, l')
        → (close os l' ≡ l') × (l'.socket_fd ≡ some fd)
    close-send_failed fuel fd buffer l l' fd_is up lt h =
        let facts =
          subst (Sent os laws l.network fd (laws.sent l.network fd) buffer) h
            (send-Sent os laws fuel fd buffer l fd_is up lt) in
        (closed_lost l' facts.1, facts.2)

    -- Over a stream that meets the laws, with enough fuel: when receive_exact has returned false
    -- on an open connection, close does nothing, and the connection still has its descriptor.
    pub close-receive_failed :
        (fuel fd size : ℕ) (l l' : Link N)
        → l.socket_fd ≡ some fd
        → l.connected ≡ true
        → size + interrupts l.network < fuel
        → receive_exact os fuel size l ≡ ends (none, l')
        → (close os l' ≡ l') × (l'.socket_fd ≡ some fd)
    close-receive_failed fuel fd size l l' fd_is up lt h =
        let facts =
          subst (Received os laws l.network fd size (laws.coming l.network fd)) h
            (receive_exact-Received os laws fuel fd size l fd_is up lt) in
        (closed_lost l' facts.0, facts.1)
