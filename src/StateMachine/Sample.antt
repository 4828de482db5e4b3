-- ===== src/StateMachine/Sample.antt =====
-- A log on the storage over the small system in memory: a leader, and its write of one byte.
use diarkis.Base.{
  List, ◌+◌, ◌<◌, ℕ, length, ◌≡◌, refl, inl, none, some, true, [], ◌∷◌, Bytes, arith,
}
use diarkis.Base.Table.{find, put, erase}
use diarkis.Error.{result_ok}
use diarkis.Path.{validate_path, resolve_path}
use diarkis.Locker.{lock_write, unlock_write}
use diarkis.Commands.{no_response}
use diarkis.Commands.Codec.{codec, write_known, pack_command, unpack_command}
use diarkis.Posix.Ram.{Ram, ram, open_file, write_bytes}
use diarkis.Storage.Monad.{Storage, ends, Action}
use diarkis.Storage.Files.{write_file_at, write_all, write_file}
use diarkis.StateMachine.Apply.{Status, settle, apply_command, apply_entry, on_apply}
use diarkis.StateMachine.Requests.{Leadership, apply_write_command}
use diarkis.StateMachine.Leader.{Commits, waited}
use diarkis.StateMachine.Progress.{NoSelfRenames}

abbrev pub a : Bytes
a = 0x61 ∷ []

abbrev pub b : Bytes
b = 0x62 ∷ []

abbrev pub b_a : Bytes
b_a = 0x62 ∷ 0x2f ∷ 0x61 ∷ []

abbrev pub fresh : Storage Ram
fresh = record {
  base_path = b;
  file_locker = [];
  world = record { files = []; handle = none; chunk = 1; signals = 1 };
}

abbrev pub written : Storage Ram
written = record {
  base_path = b;
  file_locker = [];
  world = record { files = (b_a, 7 ∷ []) ∷ []; handle = some (b_a, 0); chunk = 1; signals = 0 };
}

abbrev pub replicate : Bytes → Action Ram Status
replicate bytes = apply_entry ram 20 codec (waited bytes)

pub commits : Commits ram 20 codec replicate
unfolding on_apply
commits = record { earlier = λ bytes s. []; settles = λ bytes s. inl refl }

pub a_valid : result_ok (validate_path a) ≡ true
unfolding validate_path result_ok
a_valid = refl

abbrev pub leader : Leadership
leader = record { is_leader = true; leader_id = none }

pub write_request :
    apply_write_command codec replicate leader (write_known (7 ∷ [])) fresh
    ≡ ends (record no_response { success = true }, written)
unfolding apply_write_command apply_entry apply_command settle write_file write_file_at write_all
    validate_path resolve_path result_ok lock_write unlock_write find put erase open_file
    write_bytes unpack_command pack_command
write_request = refl

pub harmless : (bytes : Bytes) → NoSelfRenames codec (commits.earlier bytes fresh)
unfolding NoSelfRenames commits
harmless bytes = tt

pub enough :
    (bytes : Bytes) (statuses : List Status) (t : Storage Ram)
    → on_apply ram 20 codec (commits.earlier bytes fresh) fresh ≡ ends (statuses, t)
    → length {A = ℕ} (7 ∷ []) + t.world.signals < 20
unfolding on_apply commits
enough bytes statuses t h = ground arith
