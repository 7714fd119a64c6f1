-- ===== src/Guard/Examples.antt =====
-- The guard's theorems at a machine on which everything can be written.
use box_fleet.Base.{
  ◌≡◌, ◌⊎◌, refl, text, same, true, none, some, [], ◌∷◌, has_prefix, arith, decimal, digits,
}
use box_fleet.Guard.{
  Machine, Config, GuardState, stored, absent, Disk, done, write_guard, restore_backup,
}
use box_fleet.Guard.Run.{run_guard, run_starts, valid_target, same_path}
use box_fleet.Guard.Rollback.{IsWaiting, IsBack, run_starts-IsBack}
use box_fleet.Guard.Safety.{IsDue, run_guard-moves}

abbrev plain_machine : Machine
plain_machine = record {
  eval_symlinks = λ p. some p;
  absolute = λ p. some p;
  exists = λ p. true;
  writable = λ p. true;
  reloads = true;
  parse_time = λ t. none;
  format_time = λ t. text "t";
}

abbrev plain_config : Config
plain_config = record {
  agent_path = text "/a";
  guard_state_path = text "/g";
  backup_path = text "/b";
  releases = text "/r";
  units = text "/u" ∷ text "/v" ∷ [];
}

abbrev pending_state : GuardState
pending_state = record {
  operation_id = text "o";
  expected_version = text "2";
  previous_target = text "/r/1";
  candidate_target = text "/r/2";
  status = text "pending";
  attempts = 0;
  deadline = text "t";
  error = [];
}

abbrev pending_disk : Disk
pending_disk = record {
  guard = stored pending_state;
  service_link = text "/r/2";
  units = [];
  backup = absent;
}

restores_nothing :
    (e : Disk) → e.backup ≡ absent → (restore_backup plain_machine plain_config e).0 ≡ done
unfolding restore_backup
restores_nothing e h = rw h refl

pending_disk-IsWaiting : IsWaiting plain_machine plain_config pending_state pending_disk
unfolding valid_target same_path has_prefix same
pending_disk-IsWaiting = record {
  guard = refl;
  pending = refl;
  previous_valid = refl;
  candidate_valid = refl;
  current = text "/r/2";
  resolves = refl;
  elsewhere = refl;
  there = refl;
  guard_writable = refl;
  link_writable = refl;
  restores = restores_nothing;
}

run_starts-IsBack_example :
    IsBack (text "/r/1") (run_starts plain_machine plain_config (1 ∷ 2 ∷ 3 ∷ 4 ∷ []) pending_disk)
run_starts-IsBack_example =
    run_starts-IsBack plain_machine plain_config (1 ∷ 2 ∷ 3 ∷ 4 ∷ []) pending_state pending_disk
      pending_disk-IsWaiting (omega arith) (omega arith)

run_guard-moves_example :
    ((run_guard plain_machine plain_config 1 pending_disk).1.service_link ≡ text "/r/2")
    ⊎ (IsDue plain_machine 1 pending_state
        × ((run_guard plain_machine plain_config 1 pending_disk).1.service_link ≡ text "/r/1"))
run_guard-moves_example =
    run_guard-moves plain_machine plain_config 1 pending_state pending_disk refl

-- Two starts leave the candidate in place.
test_two_starts :
    (run_starts plain_machine plain_config (1 ∷ 2 ∷ []) pending_disk).service_link ≡ text "/r/2"
unfolding run_starts run_guard valid_target same_path has_prefix same write_guard restore_backup
    decimal digits
test_two_starts = refl
