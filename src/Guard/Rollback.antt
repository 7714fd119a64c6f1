-- ===== src/Guard/Rollback.antt =====
-- A new version that never confirms itself is rolled back, by the third start at the latest.
use box_fleet.Base.{
  ℕ, ◌+◌, ◌≤◌, ◌≡◌, refl, ◌∙◌, Text, text, same, true, false, not, ◌&&◌, some, List, [], ◌∷◌, ◌⊎◌,
  ltb, length, arith, Bool-cases, inl, inr,
}
use box_fleet.Guard.{
  Machine, Config, GuardState, Stored, stored, Disk, Outcome, done, failed, and_run, put_link,
  put_guard, write_guard, restore_backup, with_defaults,
}
use box_fleet.Guard.Run.{
  run_guard, run_stored, run_starts, valid_target, at_previous, counted, rolled_back, count_start,
  roll_back, gave_up, check_targets, deadline_passed,
}
use box_fleet.Guard.Restore.{restore_backup-IsSameService}

-- The service path points to the previous version, and the guard knows.
pub record IsBack (previous : Text) (d : Disk) : Type 0 where
  pub state : GuardState
  pub guard : d.guard ≡ stored state
  pub status : state.status ≡ text "rolled_back"
  pub link : d.service_link ≡ previous

run_stored-back :
    (m : Machine) (c : Config) (now : ℕ) (g : Stored GuardState) (s : GuardState) (d : Disk)
    → g ≡ stored s
    → s.status ≡ text "rolled_back"
    → run_stored m c now g d ≡ restore_backup m c d
unfolding same
run_stored-back m c now g s d e status =
    let back : same s.status (text "rolled_back") ≡ true = rw status refl in rw (e, back) refl

run_stored-pending :
    (m : Machine) (c : Config) (now : ℕ) (g : Stored GuardState) (s : GuardState) (d : Disk)
    → g ≡ stored s
    → s.status ≡ text "pending"
    → run_stored m c now g d ≡ check_targets m c now s d
unfolding same
run_stored-pending m c now g s d e status =
    let not_back : same s.status (text "rolled_back") ≡ false = rw status refl in
    let not_confirmed : same s.status (text "confirmed") ≡ false = rw status refl in
    let pending : same s.status (text "pending") ≡ true = rw status refl in
    rw (e, not_back, not_confirmed, pending) refl

run_guard-IsBack :
    (m : Machine) (c : Config) (now : ℕ) (previous : Text) (d : Disk)
    → IsBack previous d
    → IsBack previous (run_guard m c now d).1
unfolding run_guard
run_guard-IsBack m c now previous d v =
    let e = restore_backup-IsSameService m c d in
    rw (run_stored-back m c now d.guard v.state d v.guard v.status) (record {
      state = v.state;
      guard = e.guard ∙ v.guard;
      status = v.status;
      link = e.link ∙ v.link;
    })

starts-IsBack :
    (m : Machine) (c : Config) (times : List ℕ) (previous : Text) (d : Disk)
    → IsBack previous d
    → IsBack previous (run_starts m c times d)
unfolding run_starts
starts-IsBack m c [] previous d v = v
starts-IsBack m c (now ∷ times) previous d v =
    starts-IsBack m c times previous (run_guard m c now d).1 (run_guard-IsBack m c now previous d v)

-- An update that waits for its confirmation, with what a rollback needs: both versions in the release
-- directory, the previous one there and not the one that runs, files that can be written, and a backup
-- of the service files that can be restored.
pub record IsWaiting (m : Machine) (c : Config) (s : GuardState) (d : Disk) : Type 0 where
  pub guard : d.guard ≡ stored s
  pub pending : s.status ≡ text "pending"
  pub previous_valid : valid_target m c s.previous_target ≡ true
  pub candidate_valid : valid_target m c s.candidate_target ≡ true
  pub current : Text
  pub resolves : m.eval_symlinks d.service_link ≡ some current
  pub elsewhere : at_previous m current s ≡ false
  pub there : m.exists s.previous_target ≡ true
  pub guard_writable : m.writable c.guard_state_path ≡ true
  pub link_writable : m.writable c.agent_path ≡ true
  pub restores : (e : Disk) → e.backup ≡ d.backup → (restore_backup m c e).0 ≡ done

and_run-done : (r : Outcome × Disk) (f : Disk → Outcome × Disk) → r.0 ≡ done → and_run r f ≡ f r.1
and_run-done (done, d) f h = refl
and_run-done (failed, d) f h = cc

roll_back-IsBack :
    (m : Machine) (c : Config) (now : ℕ) (s : GuardState) (d : Disk)
    → m.exists s.previous_target ≡ true
    → m.writable c.guard_state_path ≡ true
    → m.writable c.agent_path ≡ true
    → ((e : Disk) → e.backup ≡ d.backup → (restore_backup m c e).0 ≡ done)
    → IsBack s.previous_target (roll_back m c now s d).1
unfolding write_guard
roll_back-IsBack m c now s d there guard_writable link_writable restores =
    let e = put_link s.previous_target d in
    let kept = restore_backup-IsSameService m c e in
    rw
      (
        there,
        link_writable,
        and_run-done (restore_backup m c e) (λ g. write_guard m c now (rolled_back (gave_up s) s) g)
            (restores e refl),
        guard_writable,
      )
      (record {
        state = with_defaults m now (rolled_back (gave_up s) s);
        guard = refl;
        status = refl;
        link = kept.link;
      })

run_guard-waiting :
    (m : Machine) (c : Config) (now : ℕ) (s : GuardState) (d : Disk)
    → IsWaiting m c s d
    → run_guard m c now d ≡ count_start m c now (counted s) d
unfolding run_guard
run_guard-waiting m c now s d v =
    run_stored-pending m c now d.guard s d v.guard v.pending
    ∙ rw (v.previous_valid, v.candidate_valid, v.resolves, v.elsewhere) refl

counted-IsWaiting :
    (m : Machine) (c : Config) (now : ℕ) (s : GuardState) (d : Disk)
    → IsWaiting m c s d
    → IsWaiting m c
        (with_defaults m now (counted s))
        (put_guard (stored (with_defaults m now (counted s))) d)
counted-IsWaiting m c now s d v = record {
  guard = refl;
  pending = rw (v.pending) refl;
  previous_valid = v.previous_valid;
  candidate_valid = v.candidate_valid;
  current = v.current;
  resolves = v.resolves;
  elsewhere = v.elsewhere;
  there = v.there;
  guard_writable = v.guard_writable;
  link_writable = v.link_writable;
  restores = v.restores;
}

-- One start: it is counted, or the update is rolled back.
start_counts :
    (m : Machine) (c : Config) (now : ℕ) (s : GuardState) (d : Disk)
    → IsWaiting m c s d
    → IsBack s.previous_target (run_guard m c now d).1
      ⊎ ((s.attempts + 1 ≤ 2)
          × ((run_guard m c now d).1 ≡ put_guard (stored (with_defaults m now (counted s))) d))
unfolding write_guard
start_counts m c now s d v =
    let goes_on = ltb (s.attempts + 1) 3 && not (deadline_passed m now (counted s)) in
    elim (Bool-cases goes_on) [
      | inl more ↦
          inr (ground arith, rw (run_guard-waiting m c now s d v, more, v.guard_writable) refl)
      | inr no_more ↦ inl (
          rw (run_guard-waiting m c now s d v, no_more)
            (roll_back-IsBack m c now (counted s) d v.there v.guard_writable v.link_writable
              v.restores))
    ]

-- An update that is not confirmed is rolled back: once the starts that were counted and those that
-- follow are three, at whatever times, the service path points to the previous version, the guard's
-- state says so, and both stay so.
pub run_starts-IsBack :
    (m : Machine) (c : Config) (times : List ℕ) (s : GuardState) (d : Disk)
    → IsWaiting m c s d
    → s.attempts ≤ 2
    → 3 ≤ s.attempts + length times
    → IsBack s.previous_target (run_starts m c times d)
unfolding run_starts
run_starts-IsBack m c [] s d v a h = ground arith
run_starts-IsBack m c (now ∷ times) s d v a h = elim (start_counts m c now s d v) [
  | inl back ↦ starts-IsBack m c times s.previous_target (run_guard m c now d).1 back
  | inr (few, same_disk) ↦
      let t = with_defaults m now (counted s) in
      rw same_disk (
        run_starts-IsBack m c times t (put_guard (stored t) d) (counted-IsWaiting m c now s d v) few
          (omega arith))
]
