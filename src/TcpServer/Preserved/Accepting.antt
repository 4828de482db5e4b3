-- ===== src/TcpServer/Preserved/Accepting.antt =====
-- The steps of accept_loop keep the invariant of a TcpServer.
use diarkis.Base.{
  mem, mem-snoc, mem-snoc_self, All-map, ℕ, suc, ◌≢◌, some, true, List, [], ◌∷◌, ◌++◌, ◌≡◌, refl,
  inl, inr, Bool-cases, arith, All-append,
}
use diarkis.TcpServer.{
  AcceptPoint, testing, accepting, accepted, added, handling, Thread, Server, add_connection,
  new_connection,
}
use diarkis.TcpServer.Steps.{thread}
use diarkis.TcpServer.Invariant.{ThreadOk, PendingOk, Valid, accept-OwnerOk}

-- A connection that is not the next one.
ThreadOk-next :
    (n : ℕ) (connected : List ℕ) (t : Thread)
    → ThreadOk n connected t
    → ThreadOk (suc n) (n ∷ connected) t
ThreadOk-next n connected t (lt, closed) = ground (arith, lt, closed)

pub ThreadOk-shrinks :
    (n : ℕ) (connected connected' : List ℕ) (t : Thread)
    → ((i : ℕ) → mem i connected' ≡ true → mem i connected ≡ true)
    → ThreadOk n connected t
    → ThreadOk n connected' t
ThreadOk-shrinks n connected connected' t less (lt, closed) = (
  lt,
  λ gone. elim (Bool-cases (mem t.conn connected')) [
    | inl up ↦ ground (arith, less t.conn up, closed gone)
    | inr down ↦ down
  ],
)

module _ {N : Type 0} where
  -- The steps of accept_loop to its test, into ::accept and behind the loop.
  pub moved-Valid :
      (s : Server N) (p q : AcceptPoint)
      → s.accept_thread ≡ some p
      → ((i : ℕ) → p ≢ accepted i)
      → PendingOk s.next_conn (some q)
      → Valid s
      → Valid (record s { accept_thread = some q })
  moved-Valid s p q e other pending v = record {
    tracked = λ i up. elim (v.tracked i up) [
      | inl active ↦ inl active
      | inr pending_i ↦ ground (arith, other i)
    ];
    threads = v.threads;
    pending = pending;
    owned =
        accept-OwnerOk s.owner s (record s { accept_thread = some q }) p e refl refl refl v.owned;
  }

  pub accept_returned-Valid :
      (s : Server N) → s.accept_thread ≡ some accepting → Valid s → Valid (new_connection s)
  accept_returned-Valid s e v = record {
    tracked = λ i up. ground (arith, v.tracked i);
    threads =
        All-map (ThreadOk s.next_conn s.connected)
          (ThreadOk (suc s.next_conn) (s.next_conn ∷ s.connected)) s.connection_threads
          (ThreadOk-next s.next_conn s.connected) v.threads;
    pending = omega arith;
    owned = accept-OwnerOk s.owner s (new_connection s) accepting e refl refl refl v.owned;
  }

  pub connection_added-Valid :
      (s : Server N) (i : ℕ)
      → s.accept_thread ≡ some (accepted i)
      → Valid s
      → Valid (record (add_connection i s) { accept_thread = some (added i) })
  connection_added-Valid s i e v = record {
    tracked = λ j up. ground (
      arith,
      v.tracked j,
      mem-snoc j i s.active_connections,
      mem-snoc_self i s.active_connections,
    );
    threads = v.threads;
    pending = ground (arith, v.pending);
    owned =
        accept-OwnerOk s.owner s (record (add_connection i s) { accept_thread = some (added i) })
          (accepted i) e refl refl refl v.owned;
  }

  pub thread_made-Valid :
      (s : Server N) (i : ℕ)
      → s.accept_thread ≡ some (added i)
      → Valid s
      → Valid (record s {
        connection_threads = s.connection_threads ++ thread i handling ∷ [];
        accept_thread = some testing;
      })
  thread_made-Valid s i e v = record {
    tracked = λ j up. ground (arith, v.tracked j);
    threads =
        All-append (ThreadOk s.next_conn s.connected) s.connection_threads (thread i handling ∷ [])
          v.threads ((ground (arith, v.pending), λ gone. ground (arith, gone)), tt);
    pending = tt;
    owned =
        accept-OwnerOk s.owner s
          (record s {
            connection_threads = s.connection_threads ++ thread i handling ∷ [];
            accept_thread = some testing;
          })
          (added i) e refl refl refl v.owned;
  }
