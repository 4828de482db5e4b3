-- ===== src/TcpServer/Preserved/Handling.antt =====
-- The steps of a connection's thread keep the invariant of a TcpServer.
use diarkis.Base.{
  mem, without, erase_first, mem-without, mem-without_self, mem-erase_first, All-map, All-at,
  All-replace, ℕ, ◌==◌, true, false, List, [], ◌∷◌, ◌++◌, ◌≡◌, refl, inl, inr, Bool-cases, arith,
  All,
}
use mathlib.Core.Path.{subst}
use diarkis.TcpServer.{
  handling, closing, removing, finished, Thread, Server, remove_connection, close_connection,
}
use diarkis.TcpServer.Steps.{thread}
use diarkis.TcpServer.Invariant.{is_gone, ThreadOk, Valid, thread-OwnerOk}
use diarkis.TcpServer.Preserved.Accepting.{ThreadOk-shrinks}

module _ {N : Type 0} where
  pub call_failed-Valid :
      (s : Server N) (i : ℕ) (before after : List Thread)
      → s.connection_threads ≡ before ++ thread i handling ∷ after
      → Valid s
      → Valid (record s { connected = without i s.connected })
  call_failed-Valid s i before after e v = record {
    tracked = λ j up. ground (arith, v.tracked j, mem-without j i s.connected);
    threads =
        All-map (ThreadOk s.next_conn s.connected) (ThreadOk s.next_conn (without i s.connected))
          s.connection_threads
          (λ t.
            ThreadOk-shrinks s.next_conn s.connected (without i s.connected) t
              λ j up. (mem-without j i s.connected up).0)
          v.threads;
    pending = v.pending;
    owned =
        thread-OwnerOk s.owner s (record s { connected = without i s.connected }) before after
          (thread i handling) e refl refl refl refl (λ h. h)
          (λ j up. (mem-without j i s.connected up).0) v.owned;
  }

  -- A thread's step, from the connections that are connected to fewer.
  pub stepped-Valid :
      (s : Server N) (x y : Thread) (before after : List Thread) (connected sockets active : List ℕ)
      → s.connection_threads ≡ before ++ x ∷ after
      → ((i : ℕ) → mem i connected ≡ true → mem i s.connected ≡ true)
      → y.conn ≡ x.conn
      → ((is_gone y.phase ≡ true) → mem y.conn connected ≡ false)
      → ((i : ℕ) → mem i connected ≡ true → mem i s.active_connections ≡ true → mem i active ≡ true)
      → (s.active_connections ≡ [] → active ≡ [])
      → Valid s
      → Valid (record s {
        connection_threads = before ++ y ∷ after;
        active_connections = active;
        connected = connected;
        sockets = sockets;
      })
  stepped-Valid s x y before after connected sockets active e less same gone keeps empties v =
      let kept : All (ThreadOk s.next_conn connected) (before ++ x ∷ after) =
        All-map (ThreadOk s.next_conn s.connected) (ThreadOk s.next_conn connected)
          (before ++ x ∷ after) (λ t. ThreadOk-shrinks s.next_conn s.connected connected t less)
          (subst (All (ThreadOk s.next_conn s.connected)) e v.threads) in
      let was = All-at (ThreadOk s.next_conn connected) before after x kept in
      record {
        tracked = λ i up. elim (v.tracked i (less i up)) [
          | inl is_active ↦ inl (keeps i up is_active)
          | inr pending ↦ inr pending
        ];
        threads =
            All-replace (ThreadOk s.next_conn connected) before after x y
              (ground (arith, was, same), gone) kept;
        pending = v.pending;
        owned =
            thread-OwnerOk s.owner s
              (record s {
                connection_threads = before ++ y ∷ after;
                active_connections = active;
                connected = connected;
                sockets = sockets;
              })
              before after x e refl refl refl refl empties less v.owned;
      }

  pub connection_closed-Valid :
      (s : Server N) (i : ℕ) (before after : List Thread)
      → s.connection_threads ≡ before ++ thread i closing ∷ after
      → Valid s
      → Valid (record (close_connection i s) {
        connection_threads = before ++ thread i removing ∷ after;
      })
  connection_closed-Valid s i before after e v = elim (Bool-cases (mem i s.connected)) [
    | inl up ↦
        let run : record (close_connection i s) {
          connection_threads = before ++ thread i removing ∷ after;
        }
            ≡ record s {
              connection_threads = before ++ thread i removing ∷ after;
              connected = without i s.connected;
              sockets = without i s.sockets;
            } =
          ground arith in
        rw run (
          stepped-Valid s (thread i closing) (thread i removing) before after
            (without i s.connected) (without i s.sockets) s.active_connections e
            (λ j h. (mem-without j i s.connected h).0) refl (λ gone. mem-without_self i s.connected)
            (λ j h active. active) (λ h. h) v)
    | inr down ↦
        let run : record (close_connection i s) {
          connection_threads = before ++ thread i removing ∷ after;
        }
            ≡ record s { connection_threads = before ++ thread i removing ∷ after } =
          ground arith in
        rw run (
          stepped-Valid s (thread i closing) (thread i removing) before after s.connected s.sockets
            s.active_connections e (λ j h. h) refl (λ gone. down) (λ j h active. active) (λ h. h) v)
  ]

  pub connection_removed-Valid :
      (s : Server N) (i : ℕ) (before after : List Thread)
      → s.connection_threads ≡ before ++ thread i removing ∷ after
      → Valid s
      → Valid (record (remove_connection i s) {
        connection_threads = before ++ thread i finished ∷ after;
      })
  connection_removed-Valid s i before after e v =
      let was : ThreadOk s.next_conn s.connected (thread i removing) =
        All-at (ThreadOk s.next_conn s.connected) before after (thread i removing)
          (subst (All (ThreadOk s.next_conn s.connected)) e v.threads) in
      stepped-Valid s (thread i removing) (thread i finished) before after s.connected s.sockets
        (erase_first i s.active_connections) e (λ j h. h) refl (λ gone. was.1 refl)
        (λ j h active.
          mem-erase_first j i s.active_connections active (other i j s.connected (was.1 refl) h))
        (λ none_active. rw none_active refl) v
    where
      other : (i j : ℕ) (xs : List ℕ) → mem i xs ≡ false → mem j xs ≡ true → (j == i) ≡ false
      other i j xs h k = elim (Bool-cases (j == i)) [
        | inl same ↦ ground (arith, h, k)
        | inr different ↦ different
      ]
