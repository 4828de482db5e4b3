-- ===== src/TcpServer/Stopping.antt =====
-- TcpServer::stop ends, however the threads interleave.
use diarkis.Base.{
  mem, ℕ, zero, suc, ◌==◌, ◌&&◌, ◌<◌, ◌≢◌, Option, none, some, true, false, List, [], ◌∷◌, ◌++◌,
  ◌≡◌, refl, ap, ◌⊎◌, inl, inr, Bool-cases, arith,
}
use diarkis.TcpServer.{
  Options, Listener, AcceptPoint, testing, accepting, accepted, added, left, Phase, handling,
  closing, removing, finished, Thread, OwnerPoint, idle, closing_listener, joining_accept, cleaning,
  joining_threads, looping, locking, Server,
}
use diarkis.TcpServer.Starting.{ListenerLaws}
use diarkis.TcpServer.Steps.{
  Step, listener_closed, accept_joined, cleanup_begun, close_begun, close_ended, cleanup_ended,
  threads_joined, tested, accept_failed, connection_added, thread_made, handler_returned,
  connection_closed, connection_removed, Reach, thread, is_finished, all_finished, is_handling,
  in_handler, is_sure,
}
use diarkis.TcpServer.Invariant.{OwnerOk, Valid}
use diarkis.TcpServer.Weight.{weight, weight-Step}
use diarkis.TcpServer.Stopped.{unconnected}
use diarkis.TcpServer.Preserved.{Step-Valid, Reach-Valid}

-- A thread that is not at its end.
unfinished :
    (ts : List Thread)
    → all_finished ts ≡ false
    → (before : List Thread) × ((x : Thread) × ((after : List Thread) × ((ts ≡ before ++ x ∷ after)
            × (is_finished x.phase ≡ false))))
unfinished [] h = ground arith
unfinished (t ∷ ts) h = elim (Bool-cases (is_finished t.phase)) [
  | inr working ↦ ([], (t, (ts, (refl, working))))
  | inl at_end ↦
      let (before, (x, (after, (e, working)))) = unfinished ts (ground arith) in
      (t ∷ before, (x, (after, (ap (◌∷◌ t) e, working))))
]

handling_thread :
    (i : ℕ) (t : Thread) → ((t.conn == i) && is_handling t.phase) ≡ true → t ≡ thread i handling
handling_thread i t here = go t.phase refl
  where
    go : (p : Phase) → t.phase ≡ p → t ≡ thread i handling
    go handling is = ground (arith, is, here)
    go closing is = ground (arith, is, here)
    go removing is = ground (arith, is, here)
    go finished is = ground (arith, is, here)

-- A thread in the handler of a connection.
handling_it :
    (i : ℕ) (ts : List Thread)
    → in_handler i ts ≡ true
    → (before : List Thread) × ((after : List Thread) × (ts ≡ before ++ thread i handling ∷ after))
handling_it i [] h = ground arith
handling_it i (t ∷ ts) h = elim (Bool-cases ((t.conn == i) && is_handling t.phase)) [
  | inl here ↦ ([], (ts, ap (λ x. x ∷ ts) (handling_thread i t here)))
  | inr elsewhere ↦
      let (before, (after, e)) = handling_it i ts (ground (arith, h, elsewhere)) in
      (t ∷ before, (after, ap (◌∷◌ t) e))
]

module _ {N : Type 0} where
  stopping : (s : Server N) → s.owner ≢ idle → OwnerOk s.owner s → s.should_stop ≡ true
  stopping s busy ok = go s.owner refl ok
    where
      go : (o : OwnerPoint) → s.owner ≡ o → OwnerOk o s → s.should_stop ≡ true
      go idle e h = elim (busy e) [ ]
      go closing_listener e h = h.1
      go joining_accept e h = h.1
      go cleaning e h = h.1
      go (looping is) e h = h.1
      go (locking i is) e h = h.1
      go joining_threads e h = h.1

module _ {N : Type 0} (listener : Listener N) (opts : Options) where
  -- The thread that calls stop is outside it; or some thread can make a step that it is sure to make,
  -- and behind every step that any can make it will be outside, after finitely many.
  pub data Stops : Server N → Type 0 where
    outside : {s : Server N} → s.owner ≡ idle → Stops s
    going_on :
        {s t : Server N} (step : Step listener opts s t)
        → is_sure listener opts step ≡ true
        → ((u : Server N) → Step listener opts s u → Stops u)
        → Stops s

module _ {N : Type 0} (listener : Listener N) (laws : ListenerLaws listener) (opts : Options) where
  -- Some thread is sure to make a step.
  abbrev Going : Server N → Type 0
  Going s = (t : Server N) × ((step : Step listener opts s t) × (is_sure listener opts step ≡ true))

  -- A thread that is not at its end, while stop joins the threads.
  Going-unfinished :
      (s : Server N) (x : Thread) (before after : List Thread)
      → s.connection_threads ≡ before ++ x ∷ after
      → is_finished x.phase ≡ false
      → s.owner ≡ joining_threads
      → mem x.conn s.connected ≡ false
      → Going s
  Going-unfinished s x before after e working o down = go x.phase refl
    where
      go : (p : Phase) → x.phase ≡ p → Going s
      go handling is =
          (_, (handler_returned x.conn before after (ground (arith, e, is)), ground (arith, down)))
      go closing is = (_, (connection_closed x.conn before after (ground (arith, e, is)), refl))
      go removing is = (
        _,
        (connection_removed x.conn before after (ground (arith, e, is)) (ground (arith, o)), refl),
      )
      go finished is = ground (arith, working)

  -- While stop waits for accept_loop, on a closed socket.
  Going-accept :
      (s : Server N) (p : Option AcceptPoint)
      → s.owner ≡ joining_accept
      → s.server_fd ≡ none
      → s.accept_thread ≡ p
      → Going s
  Going-accept s none o no_fd e = (_, (accept_joined o (ground (arith, e)), refl))
  Going-accept s (some left) o no_fd e = (_, (accept_joined o (ground (arith, e)), refl))
  Going-accept s (some testing) o no_fd e = (_, (tested e, refl))
  Going-accept s (some accepting) o no_fd e = (_, (accept_failed e, ground (arith, no_fd)))
  Going-accept s (some (accepted i)) o no_fd e = (_, (connection_added i e, refl))
  Going-accept s (some (added i)) o no_fd e = (_, (thread_made i e, refl))

  -- While stop closes a connection, or waits for its socket_mutex_.
  Going-locking :
      (s : Server N) (i : ℕ) (is : List ℕ)
      → s.owner ≡ locking i is
      → mem i s.connected ≡ false
      → Going s
  Going-locking s i is o down = elim (Bool-cases (in_handler i s.connection_threads)) [
    | inr free ↦ (_, (close_ended i is o, ground (arith, free)))
    | inl held ↦
        let (before, (after, e)) = handling_it i s.connection_threads held in
        (_, (handler_returned i before after e, ground (arith, down)))
  ]

  Going-stopping : (s : Server N) → s.owner ≢ idle → Valid s → Going s
  Going-stopping s busy v = go s.owner refl v.owned
    where
      go : (o : OwnerPoint) → s.owner ≡ o → OwnerOk o s → Going s
      go idle o h = elim (busy o) [ ]
      go closing_listener o h = (_, (listener_closed o, refl))
      go joining_accept o (off, stop, no_fd) = Going-accept s s.accept_thread o no_fd refl
      go cleaning o h = (_, (cleanup_begun o, refl))
      go (looping []) o h = (_, (cleanup_ended o, refl))
      go (looping (i ∷ is)) o h = (_, (close_begun i is o, refl))
      go (locking i is) o (off, stop, no_fd, no_accept, rest, down) = Going-locking s i is o down
      go joining_threads o (off, stop, no_fd, no_accept, none_active) =
          elim (Bool-cases (all_finished s.connection_threads)) [
            | inl all ↦ (_, (threads_joined o all, refl))
            | inr some_left ↦
                let (before, (x, (after, (e, working)))) =
                  unfinished s.connection_threads some_left in
                Going-unfinished s x before after e working o
                  (unconnected s v no_accept none_active x.conn)
          ]

  is_idle-cases : (o : OwnerPoint) → (o ≡ idle) ⊎ (o ≢ idle)
  is_idle-cases idle = inl refl
  is_idle-cases closing_listener = inr λ e. ground arith
  is_idle-cases joining_accept = inr λ e. ground arith
  is_idle-cases cleaning = inr λ e. ground arith
  is_idle-cases (looping is) = inr λ e. ground arith
  is_idle-cases (locking i is) = inr λ e. ground arith
  is_idle-cases joining_threads = inr λ e. ground arith

  Stops-weight : (n : ℕ) (s : Server N) → weight s < n → Valid s → Stops listener opts s
  Stops-weight zero s lt v = absurd (omega (arith, lt))
  Stops-weight (suc n) s lt v = elim (is_idle-cases s.owner) [
    | inl out ↦ outside out
    | inr busy ↦
        let (t, (step, sure)) = Going-stopping s busy v in
        going_on step sure λ u taken.
          Stops-weight n u
            (omega (arith, lt, weight-Step listener opts s u (stopping s busy v.owned) busy taken))
            (Step-Valid listener laws opts s u taken v)
  ]

  -- Every stop ends, provided that the threads go on: from every server that the threads reach,
  -- however they interleave, the thread that calls stop is outside it after finitely many steps,
  -- and until then some thread can make a step that it is sure to make. That is every step but a
  -- return of ::accept on a listening socket that is still open, a return of the handler of a
  -- connection that is still connected, a failing call of a handler, and the end of close on a
  -- connection whose handler still runs, which may hold its socket_mutex_.
  pub stop-Stops : (s : Server N) → Reach listener opts s → Stops listener opts s
  stop-Stops s r =
      Stops-weight (suc (weight s)) s (omega arith) (Reach-Valid listener laws opts s r)
