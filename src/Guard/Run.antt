-- ===== src/Guard/Run.antt =====
-- RunAgentGuard of internal/agent/update_guard.go.
use box_fleet.Base.{
  ℕ, ◌+◌, Text, text, same, Bool, false, not, ◌&&◌, ◌||◌, Option, none, some, List, [], ◌∷◌, ◌++◌,
  ltb, if◌then◌else◌, has_prefix, decimal,
}
use box_fleet.Guard.{
  Machine, Config, GuardState, Stored, absent, unreadable, undecodable, stored, Disk, Outcome, done,
  failed, and_run, put_link, write_guard, restore_backup,
}

-- maxAgentGuardStarts
abbrev pub max_guard_starts : ℕ
max_guard_starts = 3

abbrev within : Option Text → Option Text → Bool
within (some target) (some root) = same target root || has_prefix (root ++ text "/") target
within _ _ = false

-- validateGuardTarget
unfoldable pub valid_target : Machine → Config → Text → Bool
valid_target m c target = within (m.absolute target) (m.absolute c.releases)

abbrev or_path : Option Text → Text → Text
or_path none p = p
or_path (some q) p = q

abbrev same_text : Option Text → Option Text → Bool
same_text (some a) (some b) = same a b
same_text _ _ = false

-- samePath, of internal/agent/bootstrap.go
unfoldable pub same_path : Machine → Text → Text → Bool
same_path m a b =
    same_text (m.absolute (or_path (m.eval_symlinks a) a))
      (m.absolute (or_path (m.eval_symlinks b) b))

abbrev pub rolled_back : Text → GuardState → GuardState
rolled_back error s = record {
  operation_id = s.operation_id;
  expected_version = s.expected_version;
  previous_target = s.previous_target;
  candidate_target = s.candidate_target;
  status = text "rolled_back";
  attempts = s.attempts;
  deadline = s.deadline;
  error = error;
}

abbrev pub counted : GuardState → GuardState
counted s = record {
  operation_id = s.operation_id;
  expected_version = s.expected_version;
  previous_target = s.previous_target;
  candidate_target = s.candidate_target;
  status = s.status;
  attempts = s.attempts + 1;
  deadline = s.deadline;
  error = s.error;
}

abbrev pub reached : Option ℕ → ℕ → Bool
reached none now = false
reached (some deadline) now = not (ltb now deadline)

abbrev pub deadline_passed : Machine → ℕ → GuardState → Bool
deadline_passed m now s = reached (m.parse_time s.deadline) now

abbrev pub already_back : Text
already_back = text "agent service path already points to the previous version"

abbrev pub gave_up : GuardState → Text
gave_up s =
    text "candidate did not confirm after " ++ (decimal s.attempts ++ text " service starts")

abbrev pub record_rollback : Machine → Config → ℕ → Text → GuardState → Disk → Outcome × Disk
record_rollback m c now error s d =
    and_run (restore_backup m c d) (λ e. write_guard m c now (rolled_back error s) e)

-- The service path back to the previous version, and then the unit files and the state.
abbrev pub roll_back : Machine → Config → ℕ → GuardState → Disk → Outcome × Disk
roll_back m c now s d =
    if not (m.exists s.previous_target)
    then (failed, d)
    else if not (m.writable c.agent_path)
    then (failed, d)
    else record_rollback m c now (gave_up s) s (put_link s.previous_target d)

-- A start of a candidate that has not confirmed itself.
abbrev pub count_start : Machine → Config → ℕ → GuardState → Disk → Outcome × Disk
count_start m c now s d =
    if ltb s.attempts max_guard_starts && not (deadline_passed m now s)
    then write_guard m c now s d
    else roll_back m c now s d

-- What the agent's path leads to, and what the previous version's does.
abbrev pub at_previous : Machine → Text → GuardState → Bool
at_previous m current s = same_path m current (or_path (m.eval_symlinks s.previous_target) [])

abbrev pub check_link : Machine → Config → ℕ → Option Text → GuardState → Disk → Outcome × Disk
check_link m c now none s d = (failed, d)
check_link m c now (some current) s d =
    if at_previous m current s
    then record_rollback m c now already_back s d
    else count_start m c now (counted s) d

abbrev pub check_targets : Machine → Config → ℕ → GuardState → Disk → Outcome × Disk
check_targets m c now s d =
    if not (valid_target m c s.previous_target)
    then (failed, d)
    else if not (valid_target m c s.candidate_target)
    then (failed, d)
    else check_link m c now (m.eval_symlinks d.service_link) s d

abbrev pub run_stored : Machine → Config → ℕ → Stored GuardState → Disk → Outcome × Disk
run_stored m c now absent d = (done, d)
run_stored m c now unreadable d = (failed, d)
run_stored m c now undecodable d = (failed, d)
run_stored m c now (stored s) d =
    if same s.status (text "rolled_back")
    then restore_backup m c d
    else if same s.status (text "confirmed")
    then (done, d)
    else if not (same s.status (text "pending"))
    then (failed, d)
    else check_targets m c now s d

-- RunAgentGuard
unfoldable pub run_guard : Machine → Config → ℕ → Disk → Outcome × Disk
run_guard m c now d = run_stored m c now d.guard d

-- The disk after some starts of the service, at these times, none of which is followed by a
-- confirmation.
unfoldable pub run_starts : Machine → Config → List ℕ → Disk → Disk
run_starts m c [] d = d
run_starts m c (now ∷ times) d = run_starts m c times (run_guard m c now d).1
