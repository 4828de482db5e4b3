-- ===== src/Protocol.antt =====
-- MessageProtocol of src/include/diarkis/rpc.h and src/rpc.cc: four bytes of length in network order, then
-- the message.
pub mod Order
pub mod Frames
pub mod Whole
mod Examples
use diarkis.Base.{
  ℕ, zero, suc, ◌+◌, ◌*◌, ◌/◌, ◌%◌, ◌^◌, ◌==◌, ◌||◌, Option, none, some, Bool, true, false, List,
  [], ◌∷◌, Bytes, length, ltb, if◌then◌else◌,
}
use diarkis.Storage.Monad.{Run, ends, blocks, spins}
use diarkis.Tcp.{Sockets, Link, Talk, replied, send, receive_exact}

abbrev pub max_message_size : ℕ
max_message_size = 100 * 1024 * 1024

-- The bytes of htonl(n) in memory.
unfoldable pub htonl : ℕ → Bytes
htonl n = n / 2 ^ 24 % 256 ∷ n / 2 ^ 16 % 256 ∷ n / 2 ^ 8 % 256 ∷ n % 256 ∷ []

-- The number whose bytes, the highest first, are these.
abbrev from_digits : ℕ → Bytes → ℕ
from_digits n [] = n
from_digits n (b ∷ bytes) = from_digits (256 * n + b) bytes

-- ntohl of the number in memory
unfoldable pub ntohl : Bytes → ℕ
ntohl bytes = from_digits 0 bytes

module _ {S : Type 0} where
  -- What follows a call that returned; `none` and false are the failures of the two kinds of call.
  abbrev pub received_or :
      {A B : Type 0} → Run (Option A × S) → B → (A → S → Run (B × S)) → Run (B × S)
  received_or (ends (some a, s)) refusal f = f a s
  received_or (ends (none, s)) refusal f = ends (refusal, s)
  received_or blocks refusal f = blocks
  received_or spins refusal f = spins

  abbrev pub sent_or : Run (Bool × S) → (S → Run (Bool × S)) → Run (Bool × S)
  sent_or (ends (true, s)) f = f s
  sent_or (ends (false, s)) f = ends (false, s)
  sent_or blocks f = blocks
  sent_or spins f = spins

module _ {N : Type 0} (os : Sockets N) (fuel : ℕ) where
  abbrev pub accepted : ℕ → Option ℕ
  accepted n = if n == 0 || ltb max_message_size n then none else some n

  -- MessageProtocol::receive_length
  unfoldable pub receive_length : Talk N (Option ℕ)
  receive_length l =
      received_or (receive_exact os fuel 4 l) none
        λ length_net. replied (accepted (ntohl length_net))

  -- MessageProtocol::receive_data
  abbrev pub receive_data : ℕ → Talk N (Option Bytes)
  receive_data n = receive_exact os fuel n

  -- MessageProtocol::receive_message
  unfoldable pub receive_message : Talk N (Option Bytes)
  unfolding receive_length
  receive_message l = received_or (receive_length l) none λ n. receive_data n

  -- MessageProtocol::send_message
  unfoldable pub send_message : Bytes → Talk N Bool
  send_message message = if ltb max_message_size (length message) then replied false else λ l.
      sent_or (send os fuel (htonl (length message % 2 ^ 32)) l) (send os fuel message)
