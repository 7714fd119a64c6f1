-- ===== src/Operation/Recorded/Quiet.antt =====
-- The checks of a report, and the view of a row, leave the database as it was.
use box_fleet.Base.{ℕ, Text}
use box_fleet.Platform.{Platform}
use box_fleet.Database.{Operation, Store, M}
use box_fleet.Operation.Calls.{EventParams, view}
use box_fleet.Operation.Report.{check_report, reported}
use box_fleet.Operation.Keeps.{Keeps, keeping}

abbrev pub IsQuiet : {A : Type 0} → M A → Type 0
IsQuiet m = Keeps (λ (s : Store). s) m

reported-IsQuiet : (p : Platform) (now : ℕ) (t : Text) → IsQuiet (reported p now t)
unfolding reported
reported-IsQuiet p now t = search keeping

pub check_report-IsQuiet :
    (p : Platform) (now : ℕ) (params : EventParams) → IsQuiet (check_report p now params)
unfolding check_report
check_report-IsQuiet p now params = search (keeping, reported-IsQuiet) depth 30

pub view-IsQuiet : (p : Platform) (r : Operation) → IsQuiet (view p r)
unfolding view
view-IsQuiet p r = search keeping
