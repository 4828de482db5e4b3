-- ===== src/TcpServer/Preserved.antt =====
-- Every step of a TcpServer's threads keeps its invariant.
pub mod Accepting
pub mod Handling
pub mod Owning
use diarkis.Base.{
  mem, without, erase_first, mem-snoc, mem-snoc_self, mem-without, mem-without_self,
  mem-erase_first, All-map, All-at, All-replace, ℕ, suc, ◌<◌, ◌≤◌, ◌≢◌, ◌==◌, Option, none, some,
  Bool, true, false, List, [], ◌∷◌, ◌++◌, ◌≡◌, refl, sym, ◌∙◌, ap, ◌⊎◌, inl, inr, Bool-cases,
  Option-cases, arith, All, All-append, if◌then◌else◌,
}
use mathlib.Core.Path.{subst}
use diarkis.TcpServer.{
  Options, Listener, AcceptPoint, testing, accepting, accepted, added, left, Phase, handling,
  closing, removing, finished, Thread, OwnerPoint, idle, closing_listener, joining_accept, cleaning,
  joining_threads, Server, new_server, add_connection, remove_connection, close_connection, looping,
  locking, new_connection, begin_stop, close_socket, start,
}
use diarkis.TcpServer.Starting.{ListenerLaws, Started, start-Started}
use diarkis.TcpServer.Steps.{
  Step, start_called, stop_called, listener_closed, accept_joined, cleanup_begun, close_begun,
  close_ended, cleanup_ended, threads_joined, tested, accept_failed, accept_returned,
  connection_added, thread_made, call_failed, handler_returned, connection_closed,
  connection_removed, Reach, fresh, next, thread, has_left, unless_stopped,
}
use diarkis.TcpServer.Invariant.{
  is_gone, ThreadOk, PendingOk, Tracked, Released, OwnerOk, Valid, accept-OwnerOk, thread-OwnerOk,
}
use diarkis.TcpServer.Preserved.Accepting.{
  moved-Valid, accept_returned-Valid, connection_added-Valid, thread_made-Valid,
}
use diarkis.TcpServer.Preserved.Handling.{
  call_failed-Valid, stepped-Valid, connection_closed-Valid, connection_removed-Valid,
}
use diarkis.TcpServer.Preserved.Owning.{
  start_called-Valid, stop_called-Valid, listener_closed-Valid, accept_joined-Valid,
  cleanup_begun-Valid, close_begun-Valid, close_ended-Valid, cleanup_ended-Valid,
  threads_joined-Valid,
}

module _ {N : Type 0} (listener : Listener N) (laws : ListenerLaws listener) (opts : Options) where
  unless_stopped-pending :
      (n : ℕ) (b : Bool) (p : AcceptPoint)
      → PendingOk n (some p)
      → PendingOk n (some (unless_stopped b p))
  unless_stopped-pending n true p h = tt
  unless_stopped-pending n false p h = h

  -- Every step keeps the invariant.
  pub Step-Valid : (s t : Server N) → Step listener opts s t → Valid s → Valid t
  Step-Valid s t (start_called e) v = start_called-Valid listener laws opts s e v
  Step-Valid s t (stop_called e) v = stop_called-Valid listener laws opts s e v
  Step-Valid s t (listener_closed e) v = listener_closed-Valid listener laws opts s e v
  Step-Valid s t (accept_joined e gone) v = accept_joined-Valid listener laws opts s e gone v
  Step-Valid s t (cleanup_begun e) v = cleanup_begun-Valid listener laws opts s e v
  Step-Valid s t (close_begun i is e) v = close_begun-Valid listener laws opts s i is e v
  Step-Valid s t (close_ended i is e) v = close_ended-Valid listener laws opts s i is e v
  Step-Valid s t (cleanup_ended e) v = cleanup_ended-Valid listener laws opts s e v
  Step-Valid s t (threads_joined e all) v = threads_joined-Valid listener laws opts s e v
  Step-Valid s t (tested e) v =
      moved-Valid s testing (unless_stopped s.should_stop accepting) e (λ i same. ground arith)
        (unless_stopped-pending s.next_conn s.should_stop accepting tt) v
  Step-Valid s t (accept_failed e) v =
      moved-Valid s accepting (unless_stopped s.should_stop testing) e (λ i same. ground arith)
        (unless_stopped-pending s.next_conn s.should_stop testing tt) v
  Step-Valid s t (accept_returned e) v = accept_returned-Valid s e v
  Step-Valid s t (connection_added i e) v = connection_added-Valid s i e v
  Step-Valid s t (thread_made i e) v = thread_made-Valid s i e v
  Step-Valid s t (call_failed i before after e up) v = call_failed-Valid s i before after e v
  Step-Valid s t (handler_returned i before after e) v =
      stepped-Valid s (thread i handling) (thread i closing) before after s.connected s.sockets
        s.active_connections e (λ j h. h) refl (λ gone. ground arith) (λ j h active. active)
        (λ h. h) v
  Step-Valid s t (connection_closed i before after e) v =
      connection_closed-Valid s i before after e v
  Step-Valid s t (connection_removed i before after e free) v =
      connection_removed-Valid s i before after e v

  -- Every server that its threads' steps reach has the invariant.
  pub Reach-Valid : (s : Server N) → Reach listener opts s → Valid s
  Reach-Valid s (fresh w) = record {
    tracked = λ i up. ground arith;
    threads = tt;
    pending = tt;
    owned = inr (refl, (refl, refl, refl, refl));
  }
  Reach-Valid t (next {s} r step) = Step-Valid s t step (Reach-Valid s r)
