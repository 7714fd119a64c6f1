-- ===== src/Guard.antt =====
-- The guard of an agent's update (internal/agent/update_guard.go): the service manager runs it before
-- each start of the agent, and a new version that does not confirm itself is rolled back. With it,
-- restoreServiceBackup of internal/agent/service_files.go.
mod Run
mod Restore
mod Rollback
mod Examples
mod Safety
use box_fleet.Base.{
  ℕ, suc, ◌+◌, Text, text, same, Bool, true, false, not, ◌&&◌, ◌||◌, Option, none, some, List, [],
  ◌∷◌, ◌++◌, ltb, if◌then◌else◌, has_prefix, is_empty, decimal, put_key,
}

-- What the code calls of the operating system and of package time, during one run. A path is
-- writable when it can be written, replaced or removed; units reload when the init system does so.
pub record Machine : Type 0 where
  pub eval_symlinks : Text → Option Text
  pub absolute : Text → Option Text
  pub exists : Text → Bool
  pub writable : Text → Bool
  pub reloads : Bool
  pub parse_time : Text → Option ℕ
  pub format_time : ℕ → Text

-- The parts of Agent.Config that the guard reads. `releases` is the directory of that name in
-- InstallDir, `units` the paths of the two service files.
pub record Config : Type 0 where
  pub agent_path : Text
  pub guard_state_path : Text
  pub backup_path : Text
  pub releases : Text
  pub units : List Text

-- AgentUpdateGuardState
pub record GuardState : Type 0 where
  pub operation_id : Text
  pub expected_version : Text
  pub previous_target : Text
  pub candidate_target : Text
  pub status : Text
  pub attempts : ℕ
  pub deadline : Text
  pub error : Text

pub record ServiceFile : Type 0 where
  pub path : Text
  pub content : List ℕ
  pub mode : ℕ
  pub missing : Bool

-- A file that may be absent, or fail to be read or decoded.
pub data Stored (A : Type 0) : Type 0 where
  absent unreadable undecodable : Stored A
  stored : A → Stored A

-- The files that the guard reads and writes. The agent's path is a link to `service_link`; a unit
-- is none where its file has been removed.
pub record Disk : Type 0 where
  pub guard : Stored GuardState
  pub service_link : Text
  pub units : List (Text × Option ServiceFile)
  pub backup : Stored (List ServiceFile)

pub data Outcome : Type 0 where
  done failed : Outcome

abbrev pub and_run : Outcome × Disk → (Disk → Outcome × Disk) → Outcome × Disk
and_run (done, d) f = f d
and_run (failed, d) f = (failed, d)

abbrev pub put_guard : Stored GuardState → Disk → Disk
put_guard g d = record {
  guard = g;
  service_link = d.service_link;
  units = d.units;
  backup = d.backup;
}

abbrev pub put_link : Text → Disk → Disk
put_link link d = record {
  guard = d.guard;
  service_link = link;
  units = d.units;
  backup = d.backup;
}

abbrev pub put_unit : ServiceFile → Disk → Disk
put_unit f d = record {
  guard = d.guard;
  service_link = d.service_link;
  units = put_key f.path (if f.missing then none else some f) d.units;
  backup = d.backup;
}

abbrev pub drop_backup : Disk → Disk
drop_backup d = record {
  guard = d.guard;
  service_link = d.service_link;
  units = d.units;
  backup = absent;
}

abbrev pub or_text : Text → Text → Text
or_text a b = if is_empty a then b else a

-- Five minutes, in nanoseconds.
abbrev pub confirm_time : ℕ
confirm_time = 300000000000

abbrev pub with_defaults : Machine → ℕ → GuardState → GuardState
with_defaults m now s = record {
  operation_id = s.operation_id;
  expected_version = s.expected_version;
  previous_target = s.previous_target;
  candidate_target = s.candidate_target;
  status = or_text s.status (text "pending");
  attempts = s.attempts;
  deadline = or_text s.deadline (m.format_time (now + confirm_time));
  error = s.error;
}

-- writeAgentUpdateGuard
unfoldable pub write_guard : Machine → Config → ℕ → GuardState → Disk → Outcome × Disk
write_guard m c now s d =
    if m.writable c.guard_state_path
    then (done, put_guard (stored (with_defaults m now s)) d)
    else (failed, d)

-- writeServiceFiles
unfoldable pub write_service_files : Machine → List ServiceFile → Disk → Outcome × Disk
write_service_files m [] d = (done, d)
write_service_files m (f ∷ fs) d =
    let rest = write_service_files m fs (put_unit f d) in
    if m.writable f.path then rest else (failed, d)

abbrev pub same_paths : List ServiceFile → List Text → Bool
same_paths [] [] = true
same_paths (f ∷ fs) (p ∷ ps) = same f.path p && same_paths fs ps
same_paths _ _ = false

-- clearServiceBackup
abbrev pub clear_backup : Machine → Config → Disk → Outcome × Disk
clear_backup m c d = if m.writable c.backup_path then (done, drop_backup d) else (failed, d)

abbrev pub reload_services : Machine → Disk → Outcome × Disk
reload_services m d = if m.reloads then (done, d) else (failed, d)

abbrev pub restore_files : Machine → Config → Stored (List ServiceFile) → Disk → Outcome × Disk
restore_files m c absent d = (done, d)
restore_files m c unreadable d = (failed, d)
restore_files m c undecodable d = (failed, d)
restore_files m c (stored files) d =
    if same_paths files c.units
    then and_run (write_service_files m files d)
        (λ e. and_run (reload_services m e) (λ g. clear_backup m c g))
    else (failed, d)

-- restoreServiceBackup
unfoldable pub restore_backup : Machine → Config → Disk → Outcome × Disk
restore_backup m c d = restore_files m c d.backup d
