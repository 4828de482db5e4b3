-- ===== src/TcpServer/Examples.antt =====
-- A server over a network that lists its open and its listening descriptors, with one connection, from start to stop.
use diarkis.Base.{
  erase_first, mem, without, arith, same, text, ℕ, none, some, true, false, List, [], ◌∷◌, ◌≡◌,
  refl,
}
use diarkis.Base.Int.{ℤ}
use diarkis.TcpServer.{
  Options, rpc_options, Listener, Server, Thread, testing, left, handling, closing, removing,
  finished, idle, joining_threads, new_server, start, closing_listener,
}
use diarkis.TcpServer
use diarkis.TcpServer.Starting.{ListenerLaws, Started, start-Started}
use diarkis.TcpServer.Steps.{
  Reach, fresh, next, start_called, tested, accept_returned, connection_added, thread_made,
  stop_called, listener_closed, accept_joined, cleanup_begun, close_begun, close_ended,
  cleanup_ended, handler_returned, connection_closed, connection_removed, threads_joined,
}
use diarkis.TcpServer.Stopped.{joining_threads-closed, stopped-Released}
use diarkis.TcpServer.Stopping.{Stops, stop-Stops}
use diarkis.TcpServer.Invariant.{Released}

record Net : Type 0 where
  descriptors : List ℕ
  listening : List ℕ

-- Every address is one, and every call succeeds.
abbrev listener : Listener Net
listener = record {
  open_socket = λ w. (some 3, record w { descriptors = 3 ∷ w.descriptors });
  set_reuse = λ fd w. w;
  is_address = λ address. true;
  bind_to = λ fd address port w. (true, w);
  listen_on = λ fd backlog w. (true, record w { listening = fd ∷ w.listening });
  shutdown_socket = λ fd w. w;
  close_fd = λ fd w. record w {
    descriptors = erase_first fd w.descriptors;
    listening = without fd w.listening;
  };
}

abbrev opts : Options
opts = rpc_options [] 7

abbrev off : Server Net
off = new_server (record { descriptors = 0 ∷ []; listening = [] })

opened :
    (fd : ℕ) (w w' : Net)
    → listener.open_socket w ≡ (some fd, w')
    → w'.descriptors ≡ fd ∷ w.descriptors
opened fd w w' e = ground arith

not_opened : (w w' : Net) → listener.open_socket w ≡ (none, w') → w'.descriptors ≡ w.descriptors
not_opened w w' e = ground arith

made_listen :
    (fd : ℕ) (backlog : ℤ) (w w' : Net)
    → listener.listen_on fd backlog w ≡ (true, w')
    → mem fd w'.listening ≡ true
made_listen fd backlog w w' e = ground arith

abbrev laws : ListenerLaws listener
laws = record {
  descriptors = λ w. w.descriptors;
  listens = λ fd w. mem fd w.listening;
  opened = opened;
  not_opened = not_opened;
  reuse_set = λ fd w. refl;
  bound = λ fd port address w. refl;
  listening = λ fd backlog w. refl;
  made_listen = made_listen;
  shut_down = λ fd w. refl;
  closed = λ fd w. refl;
}

start-Started_example : Started listener laws opts off (start listener opts off)
start-Started_example = start-Started listener laws opts off refl

-- A run from start, through one accepted connection, to where stop waits for the connections' threads.
abbrev at_join : Server Net
at_join = record off {
  should_stop = true;
  connection_threads = (record { conn = 0; phase = handling }) ∷ [];
  sockets = [];
  next_conn = 1;
  owner = joining_threads;
}

reach_join : Reach listener opts at_join
unfolding start TcpServer.create_socket TcpServer.bind_socket TcpServer.listen_socket
    TcpServer.close_socket same text
reach_join =
    next
      (next
        (next
          (next
            (next
              (next
                (next
                  (next
                    (next
                      (next
                        (next
                          (next
                            (next (fresh (record { descriptors = 0 ∷ []; listening = [] }))
                              (start_called refl))
                            (tested refl))
                          (accept_returned refl))
                        (connection_added 0 refl))
                      (thread_made 0 refl))
                    (stop_called refl))
                  (listener_closed refl))
                (tested refl))
              (accept_joined refl refl))
            (cleanup_begun refl))
          (close_begun 0 [] refl))
        (close_ended 0 [] refl))
      (cleanup_ended refl)

-- The server behind that stop.
abbrev at_end : Server Net
at_end = record at_join { connection_threads = []; owner = idle }

reach_end : Reach listener opts at_end
reach_end =
    next
      (next
        (next (next reach_join (handler_returned 0 [] [] refl)) (connection_closed 0 [] [] refl))
        (connection_removed 0 [] [] refl refl))
      (threads_joined refl refl)

joining_threads-closed_example : (at_join.accept_thread ≡ none) × (mem 0 at_join.connected ≡ false)
joining_threads-closed_example = joining_threads-closed listener laws opts at_join 0 reach_join refl

stopped-Released_example : Released at_end × (mem 0 at_end.connected ≡ false)
stopped-Released_example = stopped-Released listener laws opts at_end 0 reach_end refl refl

stop-Stops_example : Stops listener opts at_join
stop-Stops_example = stop-Stops listener laws opts at_join reach_join
