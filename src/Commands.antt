-- ===== src/Commands.antt =====
-- commands/diarkis/commands.h: what clients send and servers answer; and the calls of MessagePack that
-- carry them, as an interface. A value of the enum that the header does not name is `other`.
pub mod Codec
use diarkis.Base.{ℕ, List, [], Bool, false, Bytes, ◌≡◌}

pub data CommandType : Type 0 where
  create_file read_file write_file append_file delete_file : CommandType
  create_dir list_dir delete_dir rename : CommandType
  other : ℕ → CommandType

pub record Command : Type 0 where
  pub type : CommandType
  pub path : Bytes
  pub new_path : Bytes
  pub contents : Bytes

-- `payload` is the field `data`.
pub record Response : Type 0 where
  pub success : Bool
  pub error : Bytes
  pub payload : Bytes
  pub entries : List Bytes

-- Response()
abbrev pub no_response : Response
no_response = record { success = false; error = []; payload = []; entries = [] }

-- resp.success = false; resp.error = error
abbrev pub refusal : Bytes → Response
refusal error = record no_response { error = error }

-- The exceptions of src/rpc.cc and src/state_machine.cc, with what() of the general one.
pub data Exception : Type 0 where
  unpack_error type_error : Bytes → Exception
  other_exception : Bytes → Exception

-- e.what()
abbrev pub what : Exception → Bytes
what (unpack_error w) = w
what (type_error w) = w
what (other_exception w) = w

pub data Try (A : Type 0) : Type 0 where
  got : A → Try A
  threw : Exception → Try A

-- msgpack::pack, and msgpack::unpack with the conversion.
pub record Msgpack : Type 0 where
  pub pack_command : Command → Try Bytes
  pub unpack_command : Bytes → Try Command
  pub pack_response : Response → Try Bytes
  pub unpack_response : Bytes → Try Response

-- What is packed is unpacked again.
pub record MsgpackLaws (m : Msgpack) : Type 0 where
  pub command_back :
      (c : Command) (b : Bytes) → m.pack_command c ≡ got b → m.unpack_command b ≡ got c
  pub response_back :
      (r : Response) (b : Bytes) → m.pack_response r ≡ got b → m.unpack_response b ≡ got r
