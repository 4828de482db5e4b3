-- ===== src/Tcp/Examples.antt =====
-- A connection over the small network.
use diarkis.Base.{◌≡◌, refl, none, some, true, false, [], ◌∷◌, Bytes, arith}
use diarkis.Storage.Monad.{ends}
use diarkis.Tcp.{Link, new_link, send, receive_exact, close}
use diarkis.Tcp.Sending.{Sent, send-Sent}
use diarkis.Tcp.Receiving.{Received, receive_exact-Received}
use diarkis.Tcp.Closing.{close-receive_failed}
use diarkis.Tcp.Pipe.{Pipe, pipe, pipe_laws, receive_bytes}

abbrev hello : Bytes
hello = 1 ∷ 2 ∷ 3 ∷ 4 ∷ 5 ∷ []

abbrev up : Link Pipe
up =
    new_link 4
      (record { outgoing = 9 ∷ []; incoming = hello; chunk = 1; signals = 1; broken = false })

-- The peer is gone, and sends no more.
abbrev gone : Link Pipe
gone =
    new_link 4 (record { outgoing = []; incoming = 1 ∷ []; chunk = 1; signals = 0; broken = true })

abbrev lost_receiving : Link Pipe
lost_receiving = record {
  socket_fd = some 4;
  connected = false;
  network = record { outgoing = []; incoming = []; chunk = 1; signals = 0; broken = true };
}

send-Sent_example : Sent pipe pipe_laws up.network 4 (9 ∷ []) hello (send pipe 10 hello up)
send-Sent_example = send-Sent pipe pipe_laws 10 4 hello up refl refl (omega arith)

receive_exact-Received_example :
    Received pipe pipe_laws up.network 4 3 hello (receive_exact pipe 10 3 up)
receive_exact-Received_example =
    receive_exact-Received pipe pipe_laws 10 4 3 up refl refl (omega arith)

receive_fails : receive_exact pipe 10 3 gone ≡ ends (none, lost_receiving)
unfolding receive_exact receive_bytes
receive_fails = refl

close-receive_failed_example :
    (close pipe lost_receiving ≡ lost_receiving) × (lost_receiving.socket_fd ≡ some 4)
close-receive_failed_example =
    close-receive_failed pipe pipe_laws 10 4 3 gone lost_receiving refl refl (omega arith)
      receive_fails
