-- ===== src/TcpServer/Running.antt =====
-- TcpServer from start to the end of a stop: what its threads come to, and what they keep of the network.
use diarkis.Base.{
  ℕ, ◌≢◌, Option, none, some, Bool, true, false, List, [], Bytes, ◌≡◌, ◌∙◌, inl, inr, Bool-cases,
  Option-cases, arith, ◌||◌, mem, if◌then◌else◌,
}
use diarkis.Base.Int.{ℤ}
use diarkis.TcpServer.{
  Options, Listener, testing, idle, Server, begin_stop, begin_close, close_socket, create_socket,
  bind_socket, listen_socket, on_server_fd, or_close, or_return, launched, is_any, start,
}
use diarkis.TcpServer.Starting.{ListenerLaws}
use diarkis.TcpServer.Steps.{
  Step, start_called, stop_called, listener_closed, accept_joined, cleanup_begun, close_begun,
  close_ended, cleanup_ended, threads_joined, tested, accept_failed, accept_returned,
  connection_added, thread_made, call_failed, handler_returned, connection_closed,
  connection_removed, Reach, next,
}
use diarkis.TcpServer.Invariant.{Released}
use diarkis.TcpServer.Stopped.{stopped-Released}

-- A server as start leaves it on a new one.
pub record JustStarted {N : Type 0} (s : Server N) : Type 0 where
  pub running : s.running ≡ true
  pub accepting : s.accept_thread ≡ some testing
  pub no_threads : s.connection_threads ≡ []
  pub none_active : s.active_connections ≡ []
  pub none_connected : s.connected ≡ []
  pub outside : s.owner ≡ idle

-- A property of the network that the calls on the listening socket keep.
pub record Keeps {N : Type 0} (listener : Listener N) (P : N → Type 0) : Type 0 where
  pub opening : (w : N) → P w → P (listener.open_socket w).1
  pub reusing : (fd : ℕ) (w : N) → P w → P (listener.set_reuse fd w)
  pub binding :
      (fd port : ℕ) (address : Bytes) (w : N) → P w → P (listener.bind_to fd address port w).1
  pub listening : (fd : ℕ) (backlog : ℤ) (w : N) → P w → P (listener.listen_on fd backlog w).1
  pub shutting : (fd : ℕ) (w : N) → P w → P (listener.shutdown_socket fd w)
  pub closing : (fd : ℕ) (w : N) → P w → P (listener.close_fd fd w)

module _ {N : Type 0} (listener : Listener N) (opts : Options) where
  -- The servers that the threads of `s` come to, before a call of stop and in it.
  pub data Later (s : Server N) : Server N → Type 0 where
    now : Later s s
    then_on : {t u : Server N} → Later s t → Step listener opts t u → Later s u

  pub data InStop (s : Server N) : Server N → Type 0 where
    called : {t : Server N} → Later s t → t.owner ≡ idle → InStop s (begin_stop t)
    further : {t u : Server N} → InStop s t → t.owner ≢ idle → Step listener opts t u → InStop s u

  Later-Reach : (s t : Server N) → Reach listener opts s → Later s t → Reach listener opts t
  Later-Reach s t r now = r
  Later-Reach s t r (then_on {t = u} l step) = next (Later-Reach s u r l) step

  InStop-Reach : (s t : Server N) → Reach listener opts s → InStop s t → Reach listener opts t
  InStop-Reach s t r (called {t = u} l e) = next (Later-Reach s u r l) (stop_called e)
  InStop-Reach s t r (further {t = u} i busy step) = next (InStop-Reach s u r i) step

  begin_close-running :
      (i : ℕ) (is : List ℕ) (s : Server N) → (begin_close i is s).running ≡ s.running
  begin_close-running i is s = elim (Bool-cases (mem i s.connected)) [
    | inl up ↦ ground arith
    | inr down ↦ ground arith
  ]

  Step-off :
      (s t : Server N)
      → s.owner ≢ idle
      → s.running ≡ false
      → Step listener opts s t
      → t.running ≡ false
  unfolding close_socket
  Step-off s t busy off (start_called e) = elim (busy e) [ ]
  Step-off s t busy off (stop_called e) = elim (busy e) [ ]
  Step-off s t busy off (listener_closed e) = elim (Option-cases s.server_fd) [
    | inl no_fd ↦ ground arith
    | inr (fd, is) ↦ ground arith
  ]
  Step-off s t busy off (accept_joined e gone) = off
  Step-off s t busy off (cleanup_begun e) = off
  Step-off s t busy off (close_begun i is e) = begin_close-running i is s ∙ off
  Step-off s t busy off (close_ended i is e) = off
  Step-off s t busy off (cleanup_ended e) = off
  Step-off s t busy off (threads_joined e all) = off
  Step-off s t busy off (tested e) = off
  Step-off s t busy off (accept_failed e) = off
  Step-off s t busy off (accept_returned e) = off
  Step-off s t busy off (connection_added i e) = off
  Step-off s t busy off (thread_made i e) = off
  Step-off s t busy off (call_failed i before after e up) = off
  Step-off s t busy off (handler_returned i before after e) = off
  Step-off s t busy off (connection_closed i before after e) =
      elim (Bool-cases (mem i s.connected)) [ inl up ↦ ground arith | inr down ↦ ground arith ]
  Step-off s t busy off (connection_removed i before after e free) = off

  InStop-off : (s t : Server N) → InStop s t → t.running ≡ false
  InStop-off s t (called {t = u} l e) = elim (Bool-cases u.running) [
    | inl up ↦ ground arith
    | inr down ↦ ground arith
  ]
  InStop-off s t (further {t = u} i busy step) = Step-off u t busy (InStop-off s u i) step

  -- At the end of a stop the server has given all back.
  pub InStop-Released :
      ListenerLaws listener
      → (s t : Server N) → Reach listener opts s
      → InStop s t
      → t.owner ≡ idle
      → Released t
  InStop-Released laws s t r i e =
      (stopped-Released listener laws opts t 0 (InStop-Reach s t r i) e (InStop-off s t i)).0

  -- A property of both branches.
  if-lem : {A : Type 0} (Q : A → Type 0) (b : Bool) (x y : A) → Q x → Q y → Q (if b then x else y)
  if-lem Q true x y h k = h
  if-lem Q false x y h k = k

  module _ (P : N → Type 0) (keeps : Keeps listener P) where
    close_socket-keeps : (s : Server N) → P s.network → P (close_socket listener s).network
    unfolding close_socket
    close_socket-keeps s h = elim (Option-cases s.server_fd) [
      | inl no_fd ↦ rw no_fd h
      | inr (fd, is) ↦
          rw is (
            keeps.closing fd (listener.shutdown_socket fd s.network)
              (keeps.shutting fd s.network h))
    ]

    on_server_fd-keeps :
        (f : ℕ → N → Bool × N) (o : Option ℕ) (s : Server N)
        → ((fd : ℕ) (w : N) → P w → P (f fd w).1)
        → P s.network
        → P (on_server_fd listener f o s).1.network
    on_server_fd-keeps f (some fd) s k h = k fd s.network h
    on_server_fd-keeps f none s k h = h

    or_close-keeps :
        (r : Bool × Server N) (f : Server N → Bool × Server N)
        → P r.1.network
        → ((s : Server N) → P s.network → P (f s).1.network)
        → P (or_close listener r f).1.network
    or_close-keeps (true, s) f h k = k s h
    or_close-keeps (false, s) f h k = close_socket-keeps s h

    or_return-keeps :
        (r : Bool × Server N) (f : Server N → Bool × Server N)
        → P r.1.network
        → ((s : Server N) → P s.network → P (f s).1.network)
        → P (or_return listener r f).1.network
    or_return-keeps (true, s) f h k = k s h
    or_return-keeps (false, s) f h k = h

    create_socket-keeps : (s : Server N) → P s.network → P (create_socket listener s).1.network
    unfolding create_socket
    create_socket-keeps s h =
        go (listener.open_socket s.network).0 (listener.open_socket s.network).1
          (keeps.opening s.network h)
      where
        go :
            (o : Option ℕ) (w : N)
            → P w
            → P
                (elim o as (λ _. Bool × Server N) [
                  | none ↦ (false, record s { server_fd = none; network = w })
                  | some fd ↦
                      (true, record s { server_fd = some fd; network = listener.set_reuse fd w })
                ]).1.network
        go none w k = k
        go (some fd) w k = keeps.reusing fd w k

    bind_socket-keeps : (s : Server N) → P s.network → P (bind_socket listener opts s).1.network
    unfolding bind_socket
    bind_socket-keeps s h =
        if-lem (λ (r : Bool × Server N). P r.1.network)
          (is_any listener opts.address || listener.is_address opts.address) _ _
          (on_server_fd-keeps (λ fd. listener.bind_to fd opts.address opts.port) s.server_fd s
            (λ fd w k. keeps.binding fd opts.port opts.address w k) h)
          h

    listen_socket-keeps : (s : Server N) → P s.network → P (listen_socket listener opts s).1.network
    unfolding listen_socket
    listen_socket-keeps s h =
        on_server_fd-keeps (λ fd. listener.listen_on fd opts.listen_backlog) s.server_fd s
          (λ fd w k. keeps.listening fd opts.listen_backlog w k) h

    pub start-keeps : (s : Server N) → P s.network → P (start listener opts s).1.network
    unfolding start
    start-keeps s h =
        if-lem (λ (r : Bool × Server N). P r.1.network) s.running _ _ h
          (or_return-keeps (create_socket listener s) _ (create_socket-keeps s h) λ s₁ h₁.
            or_close-keeps (bind_socket listener opts s₁) _ (bind_socket-keeps s₁ h₁) λ s₂ h₂.
              or_close-keeps (listen_socket listener opts s₂) (launched listener)
                (listen_socket-keeps s₂ h₂) (λ s₃ h₃. h₃))

    Step-keeps : (s t : Server N) → Step listener opts s t → P s.network → P t.network
    Step-keeps s t (start_called e) h = start-keeps s h
    Step-keeps s t (stop_called e) h = if-lem (λ (r : Server N). P r.network) s.running _ _ h h
    Step-keeps s t (listener_closed e) h = close_socket-keeps s h
    Step-keeps s t (accept_joined e gone) h = h
    Step-keeps s t (cleanup_begun e) h = h
    Step-keeps s t (close_begun i is e) h =
        if-lem (λ (r : Server N). P r.network) (mem i s.connected) _ _ h h
    Step-keeps s t (close_ended i is e) h = h
    Step-keeps s t (cleanup_ended e) h = h
    Step-keeps s t (threads_joined e all) h = h
    Step-keeps s t (tested e) h = h
    Step-keeps s t (accept_failed e) h = h
    Step-keeps s t (accept_returned e) h = h
    Step-keeps s t (connection_added i e) h = h
    Step-keeps s t (thread_made i e) h = h
    Step-keeps s t (call_failed i before after e up) h = h
    Step-keeps s t (handler_returned i before after e) h = h
    Step-keeps s t (connection_closed i before after e) h =
        if-lem (λ (r : Server N). P r.network) (mem i s.connected) _ _ h h
    Step-keeps s t (connection_removed i before after e free) h = h

    Later-keeps : (s t : Server N) → Later s t → P s.network → P t.network
    Later-keeps s t now h = h
    Later-keeps s t (then_on {t = u} l step) h = Step-keeps u t step (Later-keeps s u l h)

    pub InStop-keeps : (s t : Server N) → InStop s t → P s.network → P t.network
    InStop-keeps s t (called {t = u} l e) h = Step-keeps u t (stop_called e) (Later-keeps s u l h)
    InStop-keeps s t (further {t = u} i busy step) h = Step-keeps u t step (InStop-keeps s u i h)
