-- ===== src/Tcp/Pipe.antt =====
-- A small network that meets the laws: one stream out and one in, calls that move at most `chunk` + 1
-- bytes, a number of calls that a signal interrupts, and a peer that may be gone.
use diarkis.Base.{
  ℕ, zero, suc, ◌≤◌, ◌<◌, ◌≡◌, Bool, true, false, ◌++◌, Bytes, length, take, drop, leb,
  if◌then◌else◌, take-append-drop, length-take, arith,
}
use diarkis.Error.{Errno, eintr, other}
use diarkis.Posix.{Outcome, returned, failed}
use diarkis.Tcp.{Sockets}
use diarkis.Tcp.Laws.{StreamLaws}

pub record Pipe : Type 0 where
  pub outgoing : Bytes
  pub incoming : Bytes
  pub chunk : ℕ
  pub signals : ℕ
  pub broken : Bool

-- The bytes that a call moves, of `n` that it could.
abbrev portion : ℕ → ℕ → ℕ
portion n chunk = if leb n chunk then n else suc chunk

-- What a call does that a signal may interrupt.
abbrev interruptible : {A : Type 0} → (Pipe → Outcome A × Pipe) → ℕ → Pipe → Outcome A × Pipe
interruptible f zero w = f w
interruptible f (suc n) w = (failed eintr, record w { signals = n })

abbrev send_now : Bytes → Bool → Pipe → Outcome ℕ × Pipe
send_now b true w = (failed (other 32), w)
send_now b false w =
    let k = portion (length b) w.chunk in
    (returned k, record w { outgoing = w.outgoing ++ take k b })

unfoldable pub send_bytes : ℕ → Bytes → Pipe → Outcome ℕ × Pipe
send_bytes fd b w = interruptible (send_now b w.broken) w.signals w

abbrev receive_now : ℕ → Pipe → Outcome Bytes × Pipe
receive_now n w =
    let k = portion n w.chunk in
    (returned (take k w.incoming), record w { incoming = drop k w.incoming })

unfoldable pub receive_bytes : ℕ → ℕ → Pipe → Outcome Bytes × Pipe
receive_bytes fd n w = interruptible (receive_now n) w.signals w

abbrev pub pipe : Sockets Pipe
pipe = record {
  send_bytes = send_bytes;
  receive_bytes = receive_bytes;
  shutdown_socket = λ fd w. w;
  close_socket = λ fd w. record w { broken = true };
}

portion-le : (n chunk : ℕ) → portion n chunk ≤ n
portion-le n chunk = ground arith

length-take-le : (k n : ℕ) (xs : Bytes) → k ≤ n → length (take k xs) ≤ n
length-take-le k n xs le = omega (arith, length-take k xs, le)

pub sends :
    (fd n : ℕ) (b : Bytes) (w w' : Pipe)
    → send_bytes fd b w ≡ (returned n, w')
    → (w'.outgoing ≡ w.outgoing ++ take n b)
      × (w'.incoming ≡ w.incoming)
      × (n ≤ length b)
      × (w'.signals ≤ w.signals)
unfolding send_bytes
sends fd n b w w' h = ground (arith, portion-le (length b) w.chunk)

pub send_fails :
    (fd : ℕ) (b : Bytes) (e : Errno) (w w' : Pipe)
    → send_bytes fd b w ≡ (failed e, w')
    → (w'.outgoing ≡ w.outgoing) × (w'.incoming ≡ w.incoming) × (e ≡ eintr → w'.signals < w.signals)
unfolding send_bytes
send_fails fd b e w w' h = ground arith

pub receives :
    (fd n : ℕ) (b : Bytes) (w w' : Pipe)
    → receive_bytes fd n w ≡ (returned b, w')
    → (w.incoming ≡ b ++ w'.incoming)
      × (length b ≤ n)
      × (w'.outgoing ≡ w.outgoing)
      × (w'.signals ≤ w.signals)
unfolding receive_bytes
receives fd n b w w' h = ground (
  arith,
  take-append-drop (portion n w.chunk) w.incoming,
  length-take-le (portion n w.chunk) n w.incoming (portion-le n w.chunk),
)

pub receive_fails :
    (fd n : ℕ) (e : Errno) (w w' : Pipe)
    → receive_bytes fd n w ≡ (failed e, w')
    → (w'.incoming ≡ w.incoming) × (w'.outgoing ≡ w.outgoing) × (e ≡ eintr → w'.signals < w.signals)
unfolding receive_bytes
receive_fails fd n e w w' h = ground arith

abbrev pub pipe_laws : StreamLaws pipe
pipe_laws = record {
  sent = λ w fd. w.outgoing;
  coming = λ w fd. w.incoming;
  interrupts = λ w. w.signals;
  send_returned = sends;
  send_failed = send_fails;
  receive_returned = receives;
  receive_failed = receive_fails;
}
