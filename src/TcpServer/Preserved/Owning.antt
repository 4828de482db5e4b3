-- ===== src/TcpServer/Preserved/Owning.antt =====
-- The steps of start and stop keep the invariant of a TcpServer.
use diarkis.Base.{
  ℕ, ◌==◌, mem, without, mem-without, mem-without_self, All-map, none, Bool, true, false, List, [],
  ◌∷◌, ◌≡◌, refl, inl, inr, Bool-cases, Option-cases, arith,
}
use mathlib.Core.Path.{subst}
use diarkis.TcpServer.{
  Options, Listener, OwnerPoint, idle, closing_listener, joining_accept, cleaning, joining_threads,
  looping, locking, Server, begin_cleanup, begin_close, end_close, end_cleanup, begin_stop,
  close_socket, start,
}
use diarkis.TcpServer.Starting.{ListenerLaws, Started, runs, fails, start-Started}
use diarkis.TcpServer.Steps.{has_left}
use diarkis.TcpServer.Invariant.{ThreadOk, Released, OwnerOk, Valid}
use diarkis.TcpServer.Preserved.Accepting.{ThreadOk-shrinks}

module _ {N : Type 0} (listener : Listener N) (laws : ListenerLaws listener) (opts : Options) where
  pub start_called-Valid :
      (s : Server N) → s.owner ≡ idle → Valid s → Valid ((start listener opts s).1)
  unfolding start
  start_called-Valid s e v = go (subst (λ o. OwnerOk o s) e v.owned)
    where
      begun :
          (r : Bool × Server N)
          → s.running ≡ false
          → Released s
          → Started listener laws opts s r
          → Valid r.1
      begun r off released (runs fd w held hears) = record {
        tracked = λ i up. ground (arith, v.tracked i, released.1);
        threads = v.threads;
        pending = tt;
        owned = rw e (inl refl);
      }
      begun r off released (fails w held) = record {
        tracked = v.tracked;
        threads = v.threads;
        pending = v.pending;
        owned = rw e (inr (off, (refl, released.1, released.2, released.3)));
      }

      go : OwnerOk idle s → Valid ((start listener opts s).1)
      go (inl up) = let run : start listener opts s ≡ (false, s) = ground arith in rw run v
      go (inr (off, released)) =
          begun (start listener opts s) off released (start-Started listener laws opts s off)

  pub stop_called-Valid : (s : Server N) → s.owner ≡ idle → Valid s → Valid (begin_stop s)
  stop_called-Valid s e v = elim (Bool-cases s.running) [
    | inl up ↦
        let run : begin_stop s
            ≡ record s { should_stop = true; running = false; owner = closing_listener } =
          ground arith in
        rw run (record {
          tracked = v.tracked;
          threads = v.threads;
          pending = v.pending;
          owned = (refl, refl);
        })
    | inr off ↦ let run : begin_stop s ≡ s = ground arith in rw run v
  ]

  pub listener_closed-Valid :
      (s : Server N)
      → s.owner ≡ closing_listener
      → Valid s
      → Valid (record (close_socket listener s) { owner = joining_accept })
  unfolding close_socket
  listener_closed-Valid s e v =
      let (off, stop) = subst (λ o. OwnerOk o s) e v.owned in
      elim (Option-cases s.server_fd) [
        | inl no_fd ↦
            let run : record (close_socket listener s) { owner = joining_accept }
                ≡ record s { owner = joining_accept } =
              ground arith in
            rw run (record {
              tracked = v.tracked;
              threads = v.threads;
              pending = v.pending;
              owned = (off, stop, no_fd);
            })
        | inr (fd, is) ↦
            let run : record (close_socket listener s) { owner = joining_accept } ≡ record s {
              owner = joining_accept;
              server_fd = none;
              network = listener.close_fd fd (listener.shutdown_socket fd s.network);
            } =
              ground arith in
            rw run (record {
              tracked = v.tracked;
              threads = v.threads;
              pending = v.pending;
              owned = (off, stop, refl);
            })
      ]

  pub accept_joined-Valid :
      (s : Server N)
      → s.owner ≡ joining_accept
      → has_left s.accept_thread ≡ true
      → Valid s
      → Valid (record s { accept_thread = none; owner = cleaning })
  accept_joined-Valid s e gone v =
      let (off, stop, no_fd) = subst (λ o. OwnerOk o s) e v.owned in
      record {
        tracked = λ i up. ground (arith, v.tracked i);
        threads = v.threads;
        pending = tt;
        owned = (off, stop, no_fd, refl);
      }

  pub threads_joined-Valid :
      (s : Server N)
      → s.owner ≡ joining_threads
      → Valid s
      → Valid (record s { connection_threads = []; owner = idle })
  threads_joined-Valid s e v =
      let (off, stop, no_fd, no_accept, none_active) = subst (λ o. OwnerOk o s) e v.owned in
      record {
        tracked = v.tracked;
        threads = tt;
        pending = v.pending;
        owned = inr (off, (no_fd, no_accept, refl, none_active));
      }

  pub cleanup_begun-Valid : (s : Server N) → s.owner ≡ cleaning → Valid s → Valid (begin_cleanup s)
  cleanup_begun-Valid s e v =
      let (off, stop, no_fd, no_accept) = subst (λ o. OwnerOk o s) e v.owned in
      record {
        tracked = v.tracked;
        threads = v.threads;
        pending = v.pending;
        owned = (off, stop, no_fd, no_accept, λ i up. ground (arith, v.tracked i up, no_accept));
      }

  -- A server with fewer connections, of which those in `is` are to be closed, or one of them is closed.
  fewer-Valid :
      (s : Server N) (o : OwnerPoint) (connected sockets : List ℕ)
      → ((i : ℕ) → mem i connected ≡ true → mem i s.connected ≡ true)
      → OwnerOk o (record s { connected = connected; sockets = sockets; owner = o })
      → Valid s
      → Valid (record s { connected = connected; sockets = sockets; owner = o })
  fewer-Valid s o connected sockets less owned v = record {
    tracked = λ i up. v.tracked i (less i up);
    threads =
        All-map (ThreadOk s.next_conn s.connected) (ThreadOk s.next_conn connected)
          s.connection_threads (λ t. ThreadOk-shrinks s.next_conn s.connected connected t less)
          v.threads;
    pending = v.pending;
    owned = owned;
  }

  pub close_begun-Valid :
      (s : Server N) (i : ℕ) (is : List ℕ)
      → s.owner ≡ looping (i ∷ is)
      → Valid s
      → Valid (begin_close i is s)
  close_begun-Valid s i is e v =
      let (off, stop, no_fd, no_accept, rest) = subst (λ o. OwnerOk o s) e v.owned in
      elim (Bool-cases (mem i s.connected)) [
        | inl up ↦ rw up (
            fewer-Valid s (locking i is) (without i s.connected) s.sockets
              (λ j h. (mem-without j i s.connected h).0)
              (
                off,
                stop,
                no_fd,
                no_accept,
                λ j h. ground (arith, mem-without j i s.connected h, rest j),
                mem-without_self i s.connected,
              )
              v)
        | inr down ↦ rw down (
            fewer-Valid s (looping is) s.connected s.sockets (λ j h. h)
              (
                off,
                stop,
                no_fd,
                no_accept,
                λ j h. elim (Bool-cases (j == i)) [
                  | inl same ↦ ground (arith, down, h)
                  | inr other ↦ ground (arith, rest j h, other)
                ],
              )
              v)
      ]

  pub close_ended-Valid :
      (s : Server N) (i : ℕ) (is : List ℕ)
      → s.owner ≡ locking i is
      → Valid s
      → Valid (end_close i is s)
  close_ended-Valid s i is e v =
      let (off, stop, no_fd, no_accept, rest, down) = subst (λ o. OwnerOk o s) e v.owned in
      fewer-Valid s (looping is) s.connected (without i s.sockets) (λ j h. h)
        (off, stop, no_fd, no_accept, rest) v

  pub cleanup_ended-Valid : (s : Server N) → s.owner ≡ looping [] → Valid s → Valid (end_cleanup s)
  cleanup_ended-Valid s e v =
      let (off, stop, no_fd, no_accept, rest) = subst (λ o. OwnerOk o s) e v.owned in
      record {
        tracked = λ i up. ground (arith, rest i up);
        threads = v.threads;
        pending = v.pending;
        owned = (off, stop, no_fd, no_accept, refl);
      }
