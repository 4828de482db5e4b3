-- ===== src/Client/Fetching.antt =====
-- What Client::read_file brings from the server that answers it.
use diarkis.Base.{
  drop, ltb, ℕ, ◌+◌, ◌≤◌, ◌<◌, ◌≡◌, ◌⊎◌, refl, none, some, Option, true, [], Bytes, length, ◌++◌,
  arith, inl, inr, Bool-cases, is_empty,
}
use mathlib.Core.Path.{subst}
use diarkis.Base.Table.{find}
use diarkis.Error.{result_ok}
use diarkis.Path.{validate_path, resolve_path}
use diarkis.Posix.{Posix}
use diarkis.Posix.Laws.{Laws}
use diarkis.Storage.Monad.{Storage, Run, ends, blocks, spins, Action}
use diarkis.Commands.{CommandType, Command, Response, Msgpack, MsgpackLaws, got}
use diarkis.StateMachine.Apply.{Status}
use diarkis.StateMachine.Requests.{Leadership, apply_read_command}
use diarkis.StateMachine.Answers
use diarkis.StateMachine.Answers.{apply_read_command-Answered}
use diarkis.Tcp.{Sockets}
use diarkis.Tcp.Laws.{StreamLaws}
use diarkis.Protocol.{max_message_size}
use diarkis.Protocol.Frames.{frame}
use diarkis.Rpc.{Session, dispatch_command, process_request}
use diarkis.Client.Connection.{Dialer}
use diarkis.Client.Rpc.{RpcClient, send_command}
use diarkis.Client.Files.{command_of, memcpy, read_result, read_off, read_file}
use diarkis.Client.Answers.{Answered}
use diarkis.Client.Remote.{send_command-dispatch_command}
use diarkis.Client.Durable.{state_machine}

-- The command of a client's read_file.
abbrev pub read_command : Bytes → Command
read_command path = command_of CommandType.read_file path [] []

-- The file's bytes at the beginning of the buffer, or past its end where it is too short.
abbrev pub Copied : Bytes → Bytes → Option Bytes → Type 0
Copied file buffer after =
    ((after ≡ some (file ++ drop (length file) buffer)) × (length file ≤ length buffer))
    ⊎ ((after ≡ none) × (length buffer < length file))

-- The call ended: the bytes of the file are copied to the buffer, and their number returned; or 0 is
-- returned and the buffer is as it was.
abbrev pub Fetched : {N : Type 0} → Bytes → Bytes → Run ((ℕ × Option Bytes) × RpcClient N) → Type 0
Fetched file buffer (ends ((n, after), c)) =
    ((n ≡ length file) × Copied file buffer after) ⊎ ((n ≡ 0) × (after ≡ some buffer))
Fetched file buffer blocks = ⊥
Fetched file buffer spins = ⊥

memcpy-Copied : (buffer file : Bytes) → Copied file buffer (memcpy buffer file)
unfolding memcpy
memcpy-Copied buffer file = elim (Bool-cases (ltb (length buffer) (length file))) [
  | inl short ↦ inr (rw short refl, ground (arith, short))
  | inr fits ↦ inl (rw fits refl, ground (arith, fits))
]

module _ {N : Type 0} (dialer : Dialer N) (laws : StreamLaws dialer.sockets) (fuel : ℕ)
    (msgpack : Msgpack) where
  -- A successful answer carries the file.
  Answered-Fetched :
      (fd : ℕ) (old request rest file buffer : Bytes) (response : Response)
      (r : Run (Response × RpcClient N))
      → (response.success ≡ true → response.payload ≡ file)
      → Answered dialer laws fuel msgpack fd old request response rest r
      → Fetched file buffer (read_off (read_result buffer) r)
  Answered-Fetched fd old request rest file buffer response (ends (resp, c)) carries (inl h) =
      elim (Bool-cases resp.success) [
        | inr failed ↦ rw failed (inr (refl, refl))
        | inl good ↦
            let same : resp.payload ≡ file = ground (arith, h.0, carries) in
            elim (Bool-cases (is_empty resp.payload)) [
              | inl nothing ↦ rw good (rw nothing (inr (refl, refl)))
              | inr something ↦
                  rw good (rw something (rw same (inl (refl, memcpy-Copied buffer file))))
            ]
      ]
  Answered-Fetched fd old request rest file buffer response (ends (resp, c)) carries (inr h) =
      rw h.0 (inr (refl, refl))
  Answered-Fetched fd old request rest file buffer response blocks carries h = h
  Answered-Fetched fd old request rest file buffer response spins carries h = h

module _ {N M W : Type 0} (dialer : Dialer N) (near : StreamLaws dialer.sockets) (os : Sockets M)
    (far : StreamLaws os) (fuel : ℕ) (msgpack : Msgpack) (codec : MsgpackLaws msgpack)
    (posix : Posix W) (laws : Laws posix) (replicate : Bytes → Action W Status) where
  open laws use {contents, interrupts}

  -- Between a client and a server as in the theorem on send_command and dispatch_command, the
  -- server's calls being those of the state machine over system calls that meet their laws:
  -- read_file of an accepted path that nobody locks on the server, whose file there it has the
  -- fuel to read, ends: it returns the number of the file's bytes, and these stand at the
  -- beginning of the client's buffer, whose rest is as it was, or the buffer is too short and they
  -- go past its end; or it returns 0, and the buffer is as it was.
  pub read_file-Fetched :
      (fd fd' : ℕ) (path buffer file request reply rest : Bytes) (response : Response)
      (c : RpcClient N) (l : Leadership) (session session' : Session M W) (s : Storage W)
      → c.conn ≡ some (some fd)
      → session.link.socket_fd ≡ some fd'
      → session.link.connected ≡ true
      → msgpack.pack_command (read_command path) ≡ got request
      → far.coming session.link.network fd' ≡ frame request ++ rest
      → process_request os fuel msgpack (state_machine posix fuel msgpack replicate l) session
        ≡ ends (true, session')
      → far.sent session'.link.network fd'
        ≡ far.sent session.link.network fd' ++ near.coming c.network fd
      → apply_read_command posix fuel (read_command path) session.storage ≡ ends (response, s)
      → msgpack.pack_response response ≡ got reply
      → 0 < length request
      → length request ≤ max_message_size
      → 0 < length reply
      → length reply ≤ max_message_size
      → 4 + length request + near.interrupts c.network < fuel
      → 4 + length reply + near.interrupts c.network < fuel
      → 4 + length request + far.interrupts session.link.network < fuel
      → 4 + length reply + far.interrupts session.link.network < fuel
      → result_ok (validate_path path) ≡ true
      → find path session.storage.file_locker ≡ none
      → contents session.storage.world (resolve_path session.storage.base_path path) ≡ some file
      → length file + interrupts session.storage.world < fuel
      → Fetched file buffer (read_file dialer fuel msgpack path buffer c)
  unfolding read_file dispatch_command
  read_file-Fetched fd fd' path buffer file request reply rest response c l session session' s
        conn_is fd_is up packed stream run linked done packed' some_bytes small some_bytes' small'
        lt lt' lt₂ lt₃ valid free held enough =
      let (answered, stored) =
        send_command-dispatch_command dialer near os far fuel msgpack codec
          (state_machine posix fuel msgpack replicate l) fd fd' (read_command path) request reply
          rest response c session session' s conn_is fd_is up packed stream run linked done packed'
          some_bytes small some_bytes' small' lt lt' lt₂ lt₃ in
      let carried : Answers.Answered posix laws (resolve_path session.storage.base_path path) file
          (ends (response, s)) =
        subst (Answers.Answered posix laws (resolve_path session.storage.base_path path) file) done
          (apply_read_command-Answered posix laws fuel (read_command path) file session.storage refl
            valid free held enough) in
      Answered-Fetched dialer near fuel msgpack fd (near.sent c.network fd) request [] file buffer
        response (send_command dialer fuel msgpack (read_command path) c) (λ ok. (carried.1 ok).0)
        answered
