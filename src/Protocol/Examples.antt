-- ===== src/Protocol/Examples.antt =====
-- Messages over the small network.
use diarkis.Base.{refl, some, true, false, [], ◌∷◌, ◌++◌, Bytes, arith}
use diarkis.Tcp.{Link}
use diarkis.Tcp.Pipe.{Pipe, pipe, pipe_laws}
use diarkis.Protocol.{send_message, receive_message}
use diarkis.Protocol.Frames.{Framed, Taken, frame, send_message-Framed, receive_message-Taken}

abbrev hello : Bytes
hello = 104 ∷ 101 ∷ 121 ∷ []

-- The frame of the message, and one byte more.
abbrev up : Link Pipe
up = record {
  socket_fd = some 4;
  connected = true;
  network = record {
    outgoing = 9 ∷ [];
    incoming = frame hello ++ 7 ∷ [];
    chunk = 1;
    signals = 1;
    broken = false;
  };
}

send_message-Framed_example :
    Framed pipe pipe_laws up.network 4 (9 ∷ []) hello (send_message pipe 20 hello up)
send_message-Framed_example =
    send_message-Framed pipe pipe_laws 20 4 hello up refl refl (omega arith) (omega arith)

receive_message-Taken_example :
    Taken pipe pipe_laws up.network 4 hello (7 ∷ []) (receive_message pipe 20 up)
receive_message-Taken_example =
    receive_message-Taken pipe pipe_laws 20 4 hello (7 ∷ []) up refl refl refl (omega arith)
      (omega arith) (omega arith)
