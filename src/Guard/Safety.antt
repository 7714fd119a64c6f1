-- ===== src/Guard/Safety.antt =====
-- The guard moves the service path only in a rollback that is due.
use box_fleet.Base.{
  ℕ, ◌+◌, ◌≤◌, ◌≡◌, ◌⊎◌, refl, ◌∙◌, Text, text, same, true, not, ◌&&◌, Option, none, some, ltb,
  arith, Bool-cases, Option-cases, inl, inr,
}
use box_fleet.Guard.{
  Machine, Config, GuardState, Stored, stored, Disk, Outcome, done, failed, and_run, put_link,
  write_guard, restore_backup,
}
use box_fleet.Guard.Run.{
  run_guard, run_stored, valid_target, at_previous, counted, rolled_back, count_start, roll_back,
  record_rollback, gave_up, already_back, check_link, check_targets, deadline_passed,
}
use box_fleet.Guard.Restore.{restore_backup-IsSameService}

-- The deadline can be read, and it is not after the time.
abbrev pub HasPassed : Machine → ℕ → GuardState → Type 0
HasPassed m now s = (t : ℕ) × (m.parse_time s.deadline ≡ some t) × (t ≤ now)

deadline_passed-HasPassed :
    (m : Machine) (now : ℕ) (s : GuardState) → deadline_passed m now s ≡ true → HasPassed m now s
deadline_passed-HasPassed m now s h = elim (Option-cases (m.parse_time s.deadline)) [
  | inl unread ↦ ground arith
  | inr (t, e) ↦ (t, e, ground arith)
]

-- What a start that moves the path found: an update that has had its three starts or its time, and
-- whose previous version is there.
pub record IsDue (m : Machine) (now : ℕ) (s : GuardState) : Type 0 where
  pub pending : same s.status (text "pending") ≡ true
  pub there : m.exists s.previous_target ≡ true
  pub due : (2 ≤ s.attempts) ⊎ HasPassed m now s

abbrev MovesOnlyWhenDue : Machine → ℕ → GuardState → Disk → Disk → Type 0
MovesOnlyWhenDue m now s d e =
    (e.service_link ≡ d.service_link) ⊎ (IsDue m now s × (e.service_link ≡ s.previous_target))

and_write-link :
    (m : Machine) (c : Config) (now : ℕ) (t : GuardState) (r : Outcome × Disk)
    → (and_run r (λ e. write_guard m c now t e)).1.service_link ≡ r.1.service_link
unfolding write_guard
and_write-link m c now t (done, d) = elim (Bool-cases (m.writable c.guard_state_path)) [
  | inl can ↦ rw can refl
  | inr cannot ↦ rw cannot refl
]
and_write-link m c now t (failed, d) = refl

record_rollback-link :
    (m : Machine) (c : Config) (now : ℕ) (error : Text) (s : GuardState) (d : Disk)
    → (record_rollback m c now error s d).1.service_link ≡ d.service_link
record_rollback-link m c now error s d =
    let kept = restore_backup-IsSameService m c d in
    and_write-link m c now (rolled_back error s) (restore_backup m c d) ∙ kept.link

roll_back-moves :
    (m : Machine) (c : Config) (now : ℕ) (s : GuardState) (d : Disk)
    → same s.status (text "pending") ≡ true
    → (2 ≤ s.attempts) ⊎ HasPassed m now s
    → MovesOnlyWhenDue m now s d (roll_back m c now (counted s) d).1
roll_back-moves m c now s d pending due = elim (Bool-cases (m.exists s.previous_target)) [
  | inl there ↦ elim (Bool-cases (m.writable c.agent_path)) [
    | inl can ↦
        rw (there, can)
          (inr (
            record { pending = pending; there = there; due = due },
            record_rollback-link m c now (gave_up (counted s)) (counted s)
                (put_link s.previous_target d),
          ))
    | inr cannot ↦ rw (there, cannot) (inl refl)
  ]
  | inr gone ↦ rw gone (inl refl)
]

count_start-moves :
    (m : Machine) (c : Config) (now : ℕ) (s : GuardState) (d : Disk)
    → same s.status (text "pending") ≡ true
    → MovesOnlyWhenDue m now s d (count_start m c now (counted s) d).1
unfolding write_guard
count_start-moves m c now s d pending =
    elim (Bool-cases (ltb (s.attempts + 1) 3 && not (deadline_passed m now s))) [
      | inl more ↦ elim (Bool-cases (m.writable c.guard_state_path)) [
        | inl can ↦ rw (more, can) (inl refl)
        | inr cannot ↦ rw (more, cannot) (inl refl)
      ]
      | inr no_more ↦ rw no_more (
          roll_back-moves m c now s d pending (elim (Bool-cases (deadline_passed m now s)) [
            | inl passed ↦ inr (deadline_passed-HasPassed m now s passed)
            | inr waits ↦ inl (ground arith)
          ]))
    ]

check_link-moves :
    (m : Machine) (c : Config) (now : ℕ) (o : Option Text) (s : GuardState) (d : Disk)
    → same s.status (text "pending") ≡ true
    → MovesOnlyWhenDue m now s d (check_link m c now o s d).1
check_link-moves m c now none s d pending = inl refl
check_link-moves m c now (some current) s d pending = elim (Bool-cases (at_previous m current s)) [
  | inl back ↦ rw back (inl (record_rollback-link m c now already_back s d))
  | inr elsewhere ↦ rw elsewhere (count_start-moves m c now s d pending)
]

check_targets-moves :
    (m : Machine) (c : Config) (now : ℕ) (s : GuardState) (d : Disk)
    → same s.status (text "pending") ≡ true
    → MovesOnlyWhenDue m now s d (check_targets m c now s d).1
check_targets-moves m c now s d pending = elim (Bool-cases (valid_target m c s.previous_target)) [
  | inl good ↦ elim (Bool-cases (valid_target m c s.candidate_target)) [
    | inl fine ↦
        rw (good, fine) (check_link-moves m c now (m.eval_symlinks d.service_link) s d pending)
    | inr bad ↦ rw (good, bad) (inl refl)
  ]
  | inr bad ↦ rw bad (inl refl)
]

run_stored-moves :
    (m : Machine) (c : Config) (now : ℕ) (g : Stored GuardState) (s : GuardState) (d : Disk)
    → g ≡ stored s
    → MovesOnlyWhenDue m now s d (run_stored m c now g d).1
unfolding restore_backup
run_stored-moves m c now g s d h = elim (Bool-cases (same s.status (text "rolled_back"))) [
  | inl back ↦ rw (h, back) (inl (restore_backup-IsSameService m c d).link)
  | inr not_back ↦ elim (Bool-cases (same s.status (text "confirmed"))) [
    | inl confirmed ↦ rw (h, not_back, confirmed) (inl refl)
    | inr not_confirmed ↦ elim (Bool-cases (same s.status (text "pending"))) [
      | inl pending ↦
          rw (h, not_back, not_confirmed, pending) (check_targets-moves m c now s d pending)
      | inr not_pending ↦ rw (h, not_back, not_confirmed, not_pending) (inl refl)
    ]
  ]
]

-- RunAgentGuard on a stored state leaves the service path where it is, or points it to the previous
-- version; and the second only for a pending update that has had two starts before or whose deadline
-- can be read and is not after the time of the start, and whose previous version is there.
pub run_guard-moves :
    (m : Machine) (c : Config) (now : ℕ) (s : GuardState) (d : Disk)
    → d.guard ≡ stored s
    → ((run_guard m c now d).1.service_link ≡ d.service_link)
      ⊎ (IsDue m now s × ((run_guard m c now d).1.service_link ≡ s.previous_target))
unfolding run_guard
run_guard-moves m c now s d e = run_stored-moves m c now d.guard s d e
