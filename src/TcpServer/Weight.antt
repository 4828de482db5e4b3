-- ===== src/TcpServer/Weight.antt =====
-- How many steps a stop of a TcpServer has to go, at most.
use diarkis.Base.{
  mem, length-without, length-without-mem, ℕ, ◌+◌, ◌*◌, erase_first, length-append, ◌<◌, ◌≤◌, ◌≢◌,
  Option, none, some, true, List, [], ◌∷◌, ◌++◌, ◌≡◌, refl, ◌∙◌, ap, inl, inr, Bool-cases,
  Option-cases, arith, length,
}
use diarkis.TcpServer.{
  Options, Listener, AcceptPoint, testing, accepting, accepted, added, left, Phase, handling,
  closing, removing, finished, Thread, OwnerPoint, idle, closing_listener, joining_accept, cleaning,
  joining_threads, looping, locking, Server, close_socket,
}
use diarkis.TcpServer.Steps.{
  Step, start_called, stop_called, listener_closed, accept_joined, cleanup_begun, close_begun,
  close_ended, cleanup_ended, threads_joined, tested, accept_failed, accept_returned,
  connection_added, thread_made, call_failed, handler_returned, connection_closed,
  connection_removed, thread,
}

-- How many steps each point is from its end, at most.
abbrev owner_weight : ℕ → OwnerPoint → ℕ
owner_weight active idle = 0
owner_weight active joining_threads = 1
owner_weight active (looping is) = 2 + 2 * length is
owner_weight active (locking i is) = 3 + 2 * length is
owner_weight active cleaning = 3 + 2 * active
owner_weight active joining_accept = 4 + 2 * active
owner_weight active closing_listener = 5 + 2 * active

-- Fewer active connections weigh no more.
owner_weight_mono : (o : OwnerPoint) (m n : ℕ) → m ≤ n → owner_weight m o ≤ owner_weight n o
owner_weight_mono idle m n h = omega arith
owner_weight_mono joining_threads m n h = omega arith
owner_weight_mono (looping is) m n h = omega arith
owner_weight_mono (locking i is) m n h = omega arith
owner_weight_mono cleaning m n h = omega (arith, h)
owner_weight_mono joining_accept m n h = omega (arith, h)
owner_weight_mono closing_listener m n h = omega (arith, h)

-- One more active connection weighs two more at most.
owner_weight-suc : (o : OwnerPoint) (m n : ℕ) → m ≡ n + 1 → owner_weight m o ≤ 2 + owner_weight n o
owner_weight-suc idle m n h = omega arith
owner_weight-suc joining_threads m n h = omega arith
owner_weight-suc (looping is) m n h = omega arith
owner_weight-suc (locking i is) m n h = omega arith
owner_weight-suc cleaning m n h = omega (arith, h)
owner_weight-suc joining_accept m n h = omega (arith, h)
owner_weight-suc closing_listener m n h = omega (arith, h)

length-erase_first : (i : ℕ) (xs : List ℕ) → length (erase_first i xs) ≤ length xs
length-erase_first i [] = omega arith
length-erase_first i (x ∷ xs) = ground (arith, length-erase_first i xs)

abbrev accept_weight : Option AcceptPoint → ℕ
accept_weight none = 0
accept_weight (some left) = 0
accept_weight (some testing) = 1
accept_weight (some (added i)) = 5
accept_weight (some (accepted i)) = 8
accept_weight (some accepting) = 10

abbrev phase_weight : Phase → ℕ
phase_weight finished = 0
phase_weight removing = 1
phase_weight closing = 2
phase_weight handling = 3

abbrev threads_weight : List Thread → ℕ
threads_weight [] = 0
threads_weight (t ∷ ts) = phase_weight t.phase + threads_weight ts

threads_weight-append :
    (xs ys : List Thread) → threads_weight (xs ++ ys) ≡ threads_weight xs + threads_weight ys
threads_weight-append [] ys = omega arith
threads_weight-append (x ∷ xs) ys = omega (arith, threads_weight-append xs ys)

module _ {N : Type 0} where
  abbrev pub weight : Server N → ℕ
  weight s =
      owner_weight (length s.active_connections) s.owner
      + (accept_weight s.accept_thread + (threads_weight s.connection_threads + length s.connected))

module _ {N : Type 0} (listener : Listener N) (opts : Options) where
  -- A step of a thread x to y, with as many connections or fewer.
  lighter :
      (s t : Server N) (x y : Thread) (before after : List Thread)
      → s.connection_threads ≡ before ++ x ∷ after
      → t.connection_threads ≡ before ++ y ∷ after
      → phase_weight y.phase < phase_weight x.phase
      → t.owner ≡ s.owner
      → t.accept_thread ≡ s.accept_thread
      → length t.connected ≤ length s.connected
      → length t.active_connections ≤ length s.active_connections
      → weight t < weight s
  lighter s t x y before after e e' less o a c d =
      let was = ap threads_weight e ∙ threads_weight-append before (x ∷ after) in
      let is = ap threads_weight e' ∙ threads_weight-append before (y ∷ after) in
      let same = ap (owner_weight (length t.active_connections)) o in
      let fewer =
        owner_weight_mono s.owner (length t.active_connections) (length s.active_connections) d in
      let same' = ap accept_weight a in omega (arith, was, is, less, same, fewer, same', c)

  -- In a stop every step takes weight off.
  pub weight-Step :
      (s t : Server N)
      → s.should_stop ≡ true
      → s.owner ≢ idle
      → Step listener opts s t
      → weight t < weight s
  unfolding close_socket
  weight-Step s t stop busy (start_called e) = elim (busy e) [ ]
  weight-Step s t stop busy (stop_called e) = elim (busy e) [ ]
  weight-Step s t stop busy (listener_closed e) = elim (Option-cases s.server_fd) [
    | inl no_fd ↦ ground arith
    | inr (fd, is) ↦ ground arith
  ]
  weight-Step s t stop busy (accept_joined e gone) = ground arith
  weight-Step s t stop busy (cleanup_begun e) = ground arith
  weight-Step s t stop busy (close_begun i is e) = elim (Bool-cases (mem i s.connected)) [
    | inl up ↦ ground (arith, length-without i s.connected)
    | inr down ↦ ground arith
  ]
  weight-Step s t stop busy (close_ended i is e) = ground arith
  weight-Step s t stop busy (cleanup_ended e) = ground arith
  weight-Step s t stop busy (threads_joined e all) = ground arith
  weight-Step s t stop busy (tested e) = ground arith
  weight-Step s t stop busy (accept_failed e) = ground arith
  weight-Step s t stop busy (accept_returned e) = ground arith
  weight-Step s t stop busy (connection_added i e) =
      let more =
        owner_weight-suc s.owner (length (s.active_connections ++ i ∷ []))
          (length s.active_connections) (length-append s.active_connections (i ∷ [])) in
      ground (arith, more)
  weight-Step s t stop busy (thread_made i e) =
      ground (arith, threads_weight-append s.connection_threads (thread i handling ∷ []))
  weight-Step s t stop busy (call_failed i before after e up) =
      ground (arith, length-without-mem i s.connected)
  weight-Step s t stop busy (handler_returned i before after e) =
      lighter s t (thread i handling) (thread i closing) before after e refl (omega arith) refl refl
        (omega arith) (omega arith)
  weight-Step s t stop busy (connection_closed i before after e) =
      elim (Bool-cases (mem i s.connected)) [
        | inl up ↦
            lighter s t (thread i closing) (thread i removing) before after e refl (omega arith)
              (ground arith) (ground arith) (ground (arith, length-without i s.connected))
              (ground arith)
        | inr down ↦
            lighter s t (thread i closing) (thread i removing) before after e refl (omega arith)
              (ground arith) (ground arith) (ground arith) (ground arith)
      ]
  weight-Step s t stop busy (connection_removed i before after e free) =
      lighter s t (thread i removing) (thread i finished) before after e refl (omega arith) refl
        refl (omega arith) (length-erase_first i s.active_connections)
