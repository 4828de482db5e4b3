-- ===== src/StateMachine/Examples.antt =====
-- A log on the storage over the small system in memory.
use diarkis.Base.{◌≡◌, refl, inr, some, true, false, [], ◌∷◌, ◌++◌, Bytes, arith, map}
use diarkis.Base.Table.{find, put, erase}
use diarkis.Error.{result_ok}
use diarkis.Path.{validate_path, resolve_path}
use diarkis.Locker.{lock_write, unlock_write}
use diarkis.Commands.{no_response, unpack_error, got}
use diarkis.Commands.Codec.{
  codec, codec_laws, write_known, rename_to_itself, read_known, unpack_command,
}
use diarkis.Posix.Ram.{ram, open_file, write_bytes}
use diarkis.Posix.RamLaws.{ram_laws}
use diarkis.Storage.Monad.{ends, blocks, ◌>>=◌, after}
use diarkis.Storage.Quiet.{Clean}
use diarkis.Storage.Files.{write_file_at, write_all, write_file}
use diarkis.StateMachine.Apply.{status_ok, Entry, settle, apply_command, apply_entry, on_apply}
use diarkis.StateMachine.Requests.{apply_read_command}
use diarkis.StateMachine.Leader.{apply_write_command-Acknowledged}
use diarkis.StateMachine.Durable.{apply_write_command-contents}
use diarkis.StateMachine.Answers.{Answered, apply_read_command-Answered}
use diarkis.StateMachine.Replay.{detached, on_apply-detached, on_apply-self_rename}
use diarkis.StateMachine.Progress.{NoSelfRenames, Unusable, on_apply-Clean, on_apply-skips}
use diarkis.Base.Int.{pos}
use diarkis.Config.Startup.{Options}
use diarkis.StateMachine.Startup.{new_state_machine, init_state_machine}
use diarkis.StateMachine.Releasing.{Returned, shutdown-init_state_machine}
use diarkis.StateMachine.Local.{offline, local, services, service_laws}
use diarkis.StateMachine.Sample.{
  a, b, fresh, written, replicate, commits, a_valid, leader, write_request, harmless, enough,
}

-- Write 7 to a; then what does not decode; then rename a to a.
abbrev writes : Entry
writes = record { bytes = 0 ∷ 7 ∷ []; has_done = true }

abbrev garbage : Entry
garbage = record { bytes = 9 ∷ []; has_done = true }

abbrev renames : Entry
renames = record { bytes = 1 ∷ a; has_done = false }

applied : on_apply ram 20 codec (writes ∷ []) fresh ≡ ends (status_ok ∷ [], written)
unfolding on_apply apply_entry apply_command settle write_file write_file_at write_all validate_path
    resolve_path result_ok lock_write unlock_write find put erase open_file write_bytes
    unpack_command
applied = refl

on_apply-detached_example :
    after (on_apply ram 20 codec (writes ∷ []) fresh)
    ≡ after (on_apply ram 20 codec (map detached (writes ∷ [])) fresh)
on_apply-detached_example = on_apply-detached ram 20 codec (writes ∷ []) fresh

only_write : NoSelfRenames codec (writes ∷ [])
unfolding NoSelfRenames unpack_command
only_write = ((λ cmd decoded renames. ground arith), tt)

on_apply-Clean_example : Clean fresh (on_apply ram 20 codec (writes ∷ []) fresh)
on_apply-Clean_example = on_apply-Clean ram 20 codec (writes ∷ []) fresh only_write refl

unusable : Unusable codec garbage
unfolding unpack_command
unusable = inr (unpack_error [], refl)

on_apply-skips_example :
    after (on_apply ram 20 codec (writes ∷ [] ++ garbage ∷ writes ∷ []) fresh)
    ≡ after (on_apply ram 20 codec (writes ∷ [] ++ writes ∷ []) fresh)
on_apply-skips_example =
    on_apply-skips ram 20 codec (writes ∷ []) (writes ∷ []) garbage fresh unusable

renames_decoded : codec.unpack_command (1 ∷ a) ≡ got (rename_to_itself a)
unfolding unpack_command
renames_decoded = refl

on_apply-self_rename_example :
    on_apply ram 20 codec (writes ∷ [] ++ renames ∷ writes ∷ []) fresh ≡ blocks
unfolding find
on_apply-self_rename_example =
    on_apply-self_rename ram 20 codec (writes ∷ []) false (1 ∷ a) (writes ∷ []) (rename_to_itself a)
      fresh written (status_ok ∷ []) applied refl renames_decoded refl refl a_valid tt

apply_write_command-Acknowledged_example :
    (leader.is_leader ≡ true)
    × ((bytes : Bytes) × ((codec.pack_command (write_known (7 ∷ [])) ≡ got bytes)
          × ((do
            _ ← on_apply ram 20 codec (commits.earlier bytes fresh)
            apply_command ram 20 (write_known (7 ∷ [])) true)
                fresh
              ≡ ends (status_ok, written))))
apply_write_command-Acknowledged_example =
    apply_write_command-Acknowledged ram 20 codec replicate codec_laws commits leader
      (write_known (7 ∷ [])) (record no_response { success = true }) fresh written write_request
      refl

apply_read_command-Answered_example :
    Answered ram ram_laws (resolve_path b a) (7 ∷ []) (apply_read_command ram 20 read_known written)
unfolding find resolve_path
apply_read_command-Answered_example =
    apply_read_command-Answered ram ram_laws 20 read_known (7 ∷ []) written refl a_valid refl refl
      (omega arith)

apply_write_command-contents_example : find (resolve_path b a) written.world.files ≡ some (7 ∷ [])
apply_write_command-contents_example =
    apply_write_command-contents ram 20 ram_laws codec replicate codec_laws commits leader a
      (7 ∷ []) (record no_response { success = true }) fresh written write_request refl a_valid refl
      harmless enough

abbrev all_set : Options
all_set = record {
  base_path = b;
  raft_path = b;
  group_id = a;
  initial_conf = a;
  election_timeout_ms = pos 1;
  snapshot_interval_s = pos 1;
}

shutdown-init_state_machine_example :
    Returned local services service_laws
      (offline (7 ∷ []))
      (init_state_machine local services (new_state_machine all_set a (offline (7 ∷ []))))
shutdown-init_state_machine_example =
    shutdown-init_state_machine local services service_laws all_set a (offline (7 ∷ []))
