-- ===== src/Tcp/Laws.antt =====
-- What src/tcp.cc relies on of a stream socket: `sent` is what a descriptor's sends have passed on,
-- `coming` what its receives will still find; `interrupts` bounds the calls that signals may interrupt.
use diarkis.Base.{ℕ, ◌≤◌, ◌<◌, ◌≡◌, ◌++◌, Bytes, length, take}
use diarkis.Error.{Errno, eintr}
use diarkis.Posix.{returned, failed}
use diarkis.Tcp.{Sockets}

pub record StreamLaws {N : Type 0} (os : Sockets N) : Type 0 where
  pub sent : N → ℕ → Bytes
  pub coming : N → ℕ → Bytes
  pub interrupts : N → ℕ
  pub send_returned :
      (fd n : ℕ) (buffer : Bytes) (w w' : N)
      → os.send_bytes fd buffer w ≡ (returned n, w')
      → (sent w' fd ≡ sent w fd ++ take n buffer)
        × (coming w' fd ≡ coming w fd)
        × (n ≤ length buffer)
        × (interrupts w' ≤ interrupts w)
  pub send_failed :
      (fd : ℕ) (buffer : Bytes) (e : Errno) (w w' : N)
      → os.send_bytes fd buffer w ≡ (failed e, w')
      → (sent w' fd ≡ sent w fd)
        × (coming w' fd ≡ coming w fd)
        × (e ≡ eintr → interrupts w' < interrupts w)
  pub receive_returned :
      (fd n : ℕ) (bytes : Bytes) (w w' : N)
      → os.receive_bytes fd n w ≡ (returned bytes, w')
      → (coming w fd ≡ bytes ++ coming w' fd)
        × (length bytes ≤ n)
        × (sent w' fd ≡ sent w fd)
        × (interrupts w' ≤ interrupts w)
  pub receive_failed :
      (fd n : ℕ) (e : Errno) (w w' : N)
      → os.receive_bytes fd n w ≡ (failed e, w')
      → (coming w' fd ≡ coming w fd)
        × (sent w' fd ≡ sent w fd)
        × (e ≡ eintr → interrupts w' < interrupts w)
