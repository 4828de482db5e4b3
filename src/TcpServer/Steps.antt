-- ===== src/TcpServer/Steps.antt =====
-- The threads of a TcpServer as interleaved steps: the one that calls start and stop, the one in
-- accept_loop, and those in handle_connection. A step is what a thread does between two points where
-- another may run: a call, or a scope of connections_mutex_.
use diarkis.Base.{
  mem, without, ℕ, Option, none, some, Bool, true, false, ◌&&◌, ◌||◌, ◌==◌, not, List, [], ◌∷◌,
  ◌++◌, ◌≡◌, if◌then◌else◌,
}
use diarkis.TcpServer.{
  Options, Listener, AcceptPoint, testing, accepting, accepted, added, left, Phase, handling,
  closing, removing, finished, Thread, OwnerPoint, idle, closing_listener, joining_accept, cleaning,
  joining_threads, looping, locking, Server, new_server, add_connection, remove_connection,
  close_connection, begin_cleanup, begin_close, end_close, end_cleanup, new_connection, begin_stop,
  close_socket, start,
}

-- accept_thread_ is absent, or join() on it returns.
abbrev pub has_left : Option AcceptPoint → Bool
has_left (some left) = true
has_left (some testing) = false
has_left (some accepting) = false
has_left (some (accepted i)) = false
has_left (some (added i)) = false
has_left none = true

abbrev pub is_finished : Phase → Bool
is_finished finished = true
is_finished handling = false
is_finished closing = false
is_finished removing = false

-- join() returns on each of them.
abbrev pub all_finished : List Thread → Bool
all_finished [] = true
all_finished (t ∷ ts) = is_finished t.phase && all_finished ts

abbrev pub thread : ℕ → Phase → Thread
thread i p = record { conn = i; phase = p }

abbrev pub is_none : Option ℕ → Bool
is_none none = true
is_none (some fd) = false

-- A test of should_stop_ that leaves the loop, or else goes on.
abbrev pub unless_stopped : Bool → AcceptPoint → AcceptPoint
unless_stopped should_stop p = if should_stop then left else p

-- The thread in stop holds connections_mutex_.
abbrev pub in_cleanup : OwnerPoint → Bool
in_cleanup (looping is) = true
in_cleanup (locking i is) = true
in_cleanup idle = false
in_cleanup closing_listener = false
in_cleanup joining_accept = false
in_cleanup cleaning = false
in_cleanup joining_threads = false

abbrev pub is_handling : Phase → Bool
is_handling handling = true
is_handling closing = false
is_handling removing = false
is_handling finished = false

-- A thread is in the handler of this connection; a call of the handler holds socket_mutex_.
abbrev pub in_handler : ℕ → List Thread → Bool
in_handler i [] = false
in_handler i (t ∷ ts) = (t.conn == i && is_handling t.phase) || in_handler i ts

module _ {N : Type 0} (listener : Listener N) (opts : Options) where
  pub data Step (s : Server N) : Server N → Type 0 where
    start_called : s.owner ≡ idle → Step s ((start listener opts s).1)
    stop_called : s.owner ≡ idle → Step s (begin_stop s)
    listener_closed :
        s.owner ≡ closing_listener
        → Step s (record (close_socket listener s) { owner = joining_accept })
    accept_joined :
        s.owner ≡ joining_accept
        → has_left s.accept_thread ≡ true
        → Step s (record s { accept_thread = none; owner = cleaning })
    cleanup_begun : s.owner ≡ cleaning → Step s (begin_cleanup s)
    close_begun : (i : ℕ) (is : List ℕ) → s.owner ≡ looping (i ∷ is) → Step s (begin_close i is s)
    close_ended : (i : ℕ) (is : List ℕ) → s.owner ≡ locking i is → Step s (end_close i is s)
    cleanup_ended : s.owner ≡ looping [] → Step s (end_cleanup s)
    threads_joined :
        s.owner ≡ joining_threads
        → all_finished s.connection_threads ≡ true
        → Step s (record s { connection_threads = []; owner = idle })
    tested :
        s.accept_thread ≡ some testing
        → Step s (record s { accept_thread = some (unless_stopped s.should_stop accepting) })
    accept_failed :
        s.accept_thread ≡ some accepting
        → Step s (record s { accept_thread = some (unless_stopped s.should_stop testing) })
    accept_returned : s.accept_thread ≡ some accepting → Step s (new_connection s)
    connection_added :
        (i : ℕ)
        → s.accept_thread ≡ some (accepted i)
        → Step s (record (add_connection i s) { accept_thread = some (added i) })
    thread_made :
        (i : ℕ)
        → s.accept_thread ≡ some (added i)
        → Step s (record s {
          connection_threads = s.connection_threads ++ thread i handling ∷ [];
          accept_thread = some testing;
        })
    call_failed :
        (i : ℕ) (before after : List Thread)
        → s.connection_threads ≡ before ++ thread i handling ∷ after
        → mem i s.connected ≡ true
        → Step s (record s { connected = without i s.connected })
    handler_returned :
        (i : ℕ) (before after : List Thread)
        → s.connection_threads ≡ before ++ thread i handling ∷ after
        → Step s (record s { connection_threads = before ++ thread i closing ∷ after })
    connection_closed :
        (i : ℕ) (before after : List Thread)
        → s.connection_threads ≡ before ++ thread i closing ∷ after
        → Step s (record (close_connection i s) {
          connection_threads = before ++ thread i removing ∷ after;
        })
    connection_removed :
        (i : ℕ) (before after : List Thread)
        → s.connection_threads ≡ before ++ thread i removing ∷ after
        → in_cleanup s.owner ≡ false
        → Step s (record (remove_connection i s) {
          connection_threads = before ++ thread i finished ∷ after;
        })

  -- The steps that their thread makes by itself, whatever the peers do: ::accept fails on a closed
  -- socket; on a connection that is not connected any more a call in progress returns, by the
  -- socket's timeout at the latest, the next ones fail, and so the handler returns; and socket_mutex_
  -- is free when no handler can be in a call. The other steps may happen, or not.
  abbrev pub is_sure : {s t : Server N} → Step s t → Bool
  is_sure (start_called e) = false
  is_sure (stop_called e) = false
  is_sure (listener_closed e) = true
  is_sure (accept_joined e gone) = true
  is_sure (cleanup_begun e) = true
  is_sure (close_begun i is e) = true
  is_sure {s} (close_ended i is e) = not (in_handler i s.connection_threads)
  is_sure (cleanup_ended e) = true
  is_sure (threads_joined e all) = true
  is_sure (tested e) = true
  is_sure {s} (accept_failed e) = is_none s.server_fd
  is_sure (accept_returned e) = false
  is_sure (connection_added i e) = true
  is_sure (thread_made i e) = true
  is_sure (call_failed i before after e up) = false
  is_sure {s} (handler_returned i before after e) = not (mem i s.connected)
  is_sure (connection_closed i before after e) = true
  is_sure (connection_removed i before after e free) = true

  pub data Reach : Server N → Type 0 where
    fresh : (w : N) → Reach (new_server w)
    next : {s t : Server N} → Reach s → Step s t → Reach t
