-- ===== src/Commands/Codec.antt =====
-- A small codec that meets the laws: it packs the commands that write the file `a` or read it, and responses.
use diarkis.Base.{
  zero, suc, ◌≡◌, List, [], ◌∷◌, Bool, true, false, Bytes, same, same_iff, if◌then◌else◌, arith,
}
use diarkis.Commands.{
  CommandType, Command, Response, unpack_error, other_exception, Try, got, threw, Msgpack,
  MsgpackLaws,
}

-- The path that the codec knows.
abbrev pub known : Bytes
known = 0x61 ∷ []

abbrev pub write_known : Bytes → Command
write_known contents = record {
  type = CommandType.write_file;
  path = known;
  new_path = [];
  contents = contents;
}

abbrev pub rename_to_itself : Bytes → Command
rename_to_itself p = record { type = CommandType.rename; path = p; new_path = p; contents = [] }

abbrev pub read_known : Command
read_known = record { type = CommandType.read_file; path = known; new_path = []; contents = [] }

abbrev pack_fields : CommandType → Bytes → Bytes → Bytes → Try Bytes
pack_fields CommandType.write_file path [] contents =
    if same path known then got (0 ∷ contents) else threw (other_exception [])
pack_fields CommandType.write_file path (x ∷ xs) contents = threw (other_exception [])
pack_fields CommandType.read_file path [] [] =
    if same path known then got (2 ∷ []) else threw (other_exception [])
pack_fields CommandType.read_file path [] (x ∷ xs) = threw (other_exception [])
pack_fields CommandType.read_file path (x ∷ xs) contents = threw (other_exception [])
pack_fields _ path new_path contents = threw (other_exception [])

unfoldable pub pack_command : Command → Try Bytes
pack_command c = pack_fields c.type c.path c.new_path c.contents

unfoldable pub unpack_command : Bytes → Try Command
unpack_command (zero ∷ contents) = got (write_known contents)
unpack_command (suc zero ∷ path) = got (rename_to_itself path)
unpack_command (suc (suc zero) ∷ rest) = got read_known
unpack_command _ = threw (unpack_error [])

abbrev pack_parts : Bool → Bytes → Bytes → List Bytes → Try Bytes
pack_parts true [] payload [] = got (1 ∷ payload)
pack_parts false error [] [] = got (0 ∷ error)
pack_parts _ _ _ _ = threw (other_exception [])

unfoldable pub pack_response : Response → Try Bytes
pack_response r = pack_parts r.success r.error r.payload r.entries

unfoldable pub unpack_response : Bytes → Try Response
unpack_response (zero ∷ error) =
    got (record { success = false; error = error; payload = []; entries = [] })
unpack_response (suc zero ∷ payload) =
    got (record { success = true; error = []; payload = payload; entries = [] })
unpack_response _ = threw (unpack_error [])

abbrev pub codec : Msgpack
codec = record {
  pack_command = pack_command;
  unpack_command = unpack_command;
  pack_response = pack_response;
  unpack_response = unpack_response;
}

fields_back :
    (t : CommandType) (p q c b : Bytes)
    → pack_fields t p q c ≡ got b
    → unpack_command b ≡ got (record { type = t; path = p; new_path = q; contents = c })
unfolding unpack_command
fields_back CommandType.write_file p [] c b h = ground (arith, same_iff p known)
fields_back CommandType.write_file p (x ∷ q) c b h = ground arith
fields_back CommandType.create_file p q c b h = ground arith
fields_back CommandType.read_file p [] [] b h = ground (arith, same_iff p known)
fields_back CommandType.read_file p [] (x ∷ c) b h = ground arith
fields_back CommandType.read_file p (x ∷ q) c b h = ground arith
fields_back CommandType.append_file p q c b h = ground arith
fields_back CommandType.delete_file p q c b h = ground arith
fields_back CommandType.create_dir p q c b h = ground arith
fields_back CommandType.list_dir p q c b h = ground arith
fields_back CommandType.delete_dir p q c b h = ground arith
fields_back CommandType.rename p q c b h = ground arith
fields_back (CommandType.other n) p q c b h = ground arith

parts_back :
    (s : Bool) (e p : Bytes) (es : List Bytes) (b : Bytes)
    → pack_parts s e p es ≡ got b
    → unpack_response b ≡ got (record { success = s; error = e; payload = p; entries = es })
unfolding unpack_response
parts_back true [] p [] b h = ground arith
parts_back true [] p (x ∷ es) b h = ground arith
parts_back true (x ∷ e) p es b h = ground arith
parts_back false e [] [] b h = ground arith
parts_back false e [] (x ∷ es) b h = ground arith
parts_back false e (x ∷ p) es b h = ground arith

pub command_back : (c : Command) (b : Bytes) → pack_command c ≡ got b → unpack_command b ≡ got c
unfolding pack_command
command_back c b h = fields_back c.type c.path c.new_path c.contents b h

pub response_back : (r : Response) (b : Bytes) → pack_response r ≡ got b → unpack_response b ≡ got r
unfolding pack_response
response_back r b h = parts_back r.success r.error r.payload r.entries b h

abbrev pub codec_laws : MsgpackLaws codec
codec_laws = record { command_back = command_back; response_back = response_back }
