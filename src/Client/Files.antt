-- ===== src/Client/Files.antt =====
-- client/cpp/src/client.cc: the calls that a program makes, each one command to the server. An int result is
-- 0 or -1; the buffers of read_file are lists of the bytes that the caller has room for.
use diarkis.Base.{
  ℕ, Option, none, some, List, [], Bytes, length, ltb, drop, ◌++◌, is_empty, if◌then◌else◌,
}
use diarkis.Base.Int.{ℤ, pos, negsuc}
use diarkis.Commands.{CommandType, Command, Response, Msgpack}
use diarkis.Storage.Monad.{Run, ends, blocks, spins}
use diarkis.Client.Connection.{Dialer}
use diarkis.Client.Rpc.{RpcClient, Remote, send_command}

-- A Command with the fields that a call fills, and no others.
abbrev pub command_of : CommandType → Bytes → Bytes → Bytes → Command
command_of type path new_path contents = record {
  type = type;
  path = path;
  new_path = new_path;
  contents = contents;
}

-- The result of a call that gives nothing back.
abbrev pub status_of : Response → ℤ
status_of resp = if resp.success then pos 0 else negsuc 0

-- std::memcpy into a buffer; `none` where the bytes go past its end.
unfoldable pub memcpy : Bytes → Bytes → Option Bytes
memcpy buffer bytes =
    if ltb (length buffer) (length bytes) then none else some (bytes ++ drop (length bytes) buffer)

-- The size that read_file returns, and what it leaves in the buffer.
abbrev pub read_result : Bytes → Response → ℕ × Option Bytes
read_result buffer resp =
    if resp.success
    then if is_empty resp.payload
      then (0, some buffer)
      else (length resp.payload, memcpy buffer resp.payload)
    else (0, some buffer)

abbrev pub entries_of : Response → List Bytes
entries_of resp = if resp.success then resp.entries else []

module _ {N : Type 0} where
  abbrev pub read_off :
      {A : Type 0} → (Response → A) → Run (Response × RpcClient N) → Run (A × RpcClient N)
  read_off f (ends (resp, c)) = ends (f resp, c)
  read_off f blocks = blocks
  read_off f spins = spins

module _ {N : Type 0} (dialer : Dialer N) (fuel : ℕ) (msgpack : Msgpack) where
  -- Client::create_file
  unfoldable pub create_file : Bytes → Remote N ℤ
  create_file path c =
      read_off status_of
        (send_command dialer fuel msgpack (command_of CommandType.create_file path [] []) c)

  -- Client::create_directory
  unfoldable pub create_directory : Bytes → Remote N ℤ
  create_directory path c =
      read_off status_of
        (send_command dialer fuel msgpack (command_of CommandType.create_dir path [] []) c)

  -- Client::read_file
  unfoldable pub read_file : Bytes → Bytes → Remote N (ℕ × Option Bytes)
  unfolding memcpy
  read_file path buffer c =
      read_off (read_result buffer)
        (send_command dialer fuel msgpack (command_of CommandType.read_file path [] []) c)

  -- Client::write_file
  unfoldable pub write_file : Bytes → Bytes → Remote N ℤ
  write_file path buffer c =
      read_off status_of
        (send_command dialer fuel msgpack (command_of CommandType.write_file path [] buffer) c)

  -- Client::append_file
  unfoldable pub append_file : Bytes → Bytes → Remote N ℤ
  append_file path buffer c =
      read_off status_of
        (send_command dialer fuel msgpack (command_of CommandType.append_file path [] buffer) c)

  -- Client::rename_file
  unfoldable pub rename_file : Bytes → Bytes → Remote N ℤ
  rename_file old_path new_path c =
      read_off status_of
        (send_command dialer fuel msgpack (command_of CommandType.rename old_path new_path []) c)

  -- Client::delete_file
  unfoldable pub delete_file : Bytes → Remote N ℤ
  delete_file path c =
      read_off status_of
        (send_command dialer fuel msgpack (command_of CommandType.delete_file path [] []) c)

  -- Client::delete_directory
  unfoldable pub delete_directory : Bytes → Remote N ℤ
  delete_directory path c =
      read_off status_of
        (send_command dialer fuel msgpack (command_of CommandType.delete_dir path [] []) c)

  -- Client::list_directory
  unfoldable pub list_directory : Bytes → Remote N (List Bytes)
  list_directory path c =
      read_off entries_of
        (send_command dialer fuel msgpack (command_of CommandType.list_dir path [] []) c)
