-- ===== src/Client/Dialing/Examples.antt =====
-- A client that connects to a server.
use diarkis.Base.{none, erase_first, List, ℕ, ◌≡◌, refl, some, true, [], ◌∷◌, Option, Bytes, arith}
use diarkis.StateMachine.Sample.{a}
use diarkis.Client.Connection.{dial, Dialer}
use diarkis.Error.{eagain}
use diarkis.Posix.{failed}
use diarkis.Client.Dialing.{DialerLaws, Dialled, dial-Dialled}

-- The open descriptors, and the peer of the last that was connected.
record Net : Type 0 where
  descriptors : List ℕ
  peer : Option (Bytes × ℕ)

-- A system where a server listens on every port.
abbrev dialer : Dialer Net
dialer = record {
  sockets = record {
    send_bytes = λ fd b w. (failed eagain, w);
    receive_bytes = λ fd n w. (failed eagain, w);
    shutdown_socket = λ fd w. w;
    close_socket = λ fd w. record w { descriptors = erase_first fd w.descriptors };
  };
  open_socket = λ w. (some 3, record w { descriptors = 3 ∷ w.descriptors });
  set_options = λ fd w. w;
  is_address = λ address. true;
  connect_socket = λ fd address port w. (true, record w { peer = some (address, port) });
}

opened :
    (fd : ℕ) (w w' : Net)
    → dialer.open_socket w ≡ (some fd, w')
    → w'.descriptors ≡ fd ∷ w.descriptors
opened fd w w' e = ground arith

not_opened : (w w' : Net) → dialer.open_socket w ≡ (none, w') → w'.descriptors ≡ w.descriptors
not_opened w w' e = ground arith

has_peer :
    (fd port : ℕ) (address : Bytes) (w w' : Net)
    → dialer.connect_socket fd address port w ≡ (true, w')
    → w'.peer ≡ some (address, port)
has_peer fd port address w w' e = ground arith

abbrev laws : DialerLaws dialer
laws = record {
  descriptors = λ w. w.descriptors;
  peer = λ fd w. w.peer;
  opened = opened;
  not_opened = not_opened;
  options_set = λ fd w. refl;
  connected = λ fd port address w. refl;
  has_peer = has_peer;
  closed = λ fd w. refl;
}

abbrev alone : Net
alone = record { descriptors = 0 ∷ []; peer = none }

dial-Dialled_example : Dialled dialer laws alone a 7 (dial dialer a 7 alone)
dial-Dialled_example = dial-Dialled dialer laws a 7 alone
