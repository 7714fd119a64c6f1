-- ===== src/Guard/Restore.antt =====
-- restoreServiceBackup leaves the guard's state and the service path.
use box_fleet.Base.{◌≡◌, refl, ◌∙◌, List, [], ◌∷◌, Bool-cases, inl, inr}
use box_fleet.Guard.{
  Machine, Config, Stored, absent, unreadable, undecodable, stored, Disk, Outcome, done, failed,
  and_run, put_unit, restore_backup, restore_files, write_service_files, reload_services,
  clear_backup, same_paths, ServiceFile,
}

-- The two disks have one state of the guard and one service path.
pub record IsSameService (d e : Disk) : Type 0 where
  pub guard : e.guard ≡ d.guard
  pub link : e.service_link ≡ d.service_link

write_service_files-IsSameService :
    (m : Machine) (fs : List ServiceFile) (d : Disk)
    → IsSameService d (write_service_files m fs d).1
unfolding write_service_files
write_service_files-IsSameService m [] d = record { guard = refl; link = refl }
write_service_files-IsSameService m (f ∷ fs) d = elim (Bool-cases (m.writable f.path)) [
  | inl can ↦
      let rest = write_service_files-IsSameService m fs (put_unit f d) in
      rw can (record { guard = rest.guard; link = rest.link })
  | inr cannot ↦ rw cannot (record { guard = refl; link = refl })
]

finish-IsSameService :
    (m : Machine) (c : Config) (d : Disk)
    → IsSameService d (and_run (reload_services m d) (λ g. clear_backup m c g)).1
finish-IsSameService m c d = elim (Bool-cases m.reloads) [
  | inl can ↦ elim (Bool-cases (m.writable c.backup_path)) [
    | inl clears ↦ rw (can, clears) (record { guard = refl; link = refl })
    | inr stays ↦ rw (can, stays) (record { guard = refl; link = refl })
  ]
  | inr cannot ↦ rw cannot (record { guard = refl; link = refl })
]

and_run-IsSameService :
    (d : Disk) (r : Outcome × Disk) (f : Disk → Outcome × Disk)
    → IsSameService d r.1
    → ((e : Disk) → IsSameService e (f e).1)
    → IsSameService d (and_run r f).1
and_run-IsSameService d (done, e) f h k =
    let v = k e in record { guard = v.guard ∙ h.guard; link = v.link ∙ h.link }
and_run-IsSameService d (failed, e) f h k = h

restore_files-IsSameService :
    (m : Machine) (c : Config) (b : Stored (List ServiceFile)) (d : Disk)
    → IsSameService d (restore_files m c b d).1
restore_files-IsSameService m c absent d = record { guard = refl; link = refl }
restore_files-IsSameService m c unreadable d = record { guard = refl; link = refl }
restore_files-IsSameService m c undecodable d = record { guard = refl; link = refl }
restore_files-IsSameService m c (stored files) d = elim (Bool-cases (same_paths files c.units)) [
  | inl expected ↦ rw expected (
      and_run-IsSameService d (write_service_files m files d) _
        (write_service_files-IsSameService m files d) (λ e. finish-IsSameService m c e))
  | inr other ↦ rw other (record { guard = refl; link = refl })
]

pub restore_backup-IsSameService :
    (m : Machine) (c : Config) (d : Disk) → IsSameService d (restore_backup m c d).1
unfolding restore_backup
restore_backup-IsSameService m c d = restore_files-IsSameService m c d.backup d
