-- ===== src/Operation/OneActive.antt =====
-- At most one operation of a node is queued or running.
use box_fleet.Base.{
  ℕ, ◌≤◌, ◌≡◌, Text, true, false, List, [], ◌∷◌, ◌++◌, arith, same_iff, count_rows,
  count_rows-append, count_rows-update_rows-le, count_rows-any_row, any_row,
}
use box_fleet.Platform.{Platform}
use box_fleet.Database.{Operation, Store, queued}
use box_fleet.Operation.Sql.{active_on, conflicts}
use box_fleet.Operation.Facts.{sets-active_on}
use box_fleet.Operation.Steps.{
  Change, insert, update, log, Changes, nothing, also, Call, step, run, matches, sets,
}
use box_fleet.Operation.Steps.Reports.{step-Changes}

abbrev pub active_count : Text → List Operation → ℕ
active_count node = count_rows (active_on node)

pub record IsExclusive (s : Store) : Type 0 where
  pub at : (node : Text) → active_count node s.operations ≤ 1

module _ (new : Operation) (q : new.status ≡ queued) where
  active_on-conflicts : (r : Operation) → active_on new.node_id r ≡ true → conflicts new r ≡ true
  unfolding conflicts
  active_on-conflicts r h = ground arith

  -- The one row that is put in is active on its own node only.
  insert-active_count :
      (node : Text) (rows : List Operation)
      → any_row (conflicts new) rows ≡ false
      → active_count node rows ≤ 1
      → active_count node (rows ++ (new ∷ [])) ≤ 1
  unfolding count_rows active_on
  insert-active_count node rows free h = ground (
    arith,
    count_rows-append (active_on node) rows (new ∷ []),
    same_iff new.node_id node,
    count_rows-any_row (active_on new.node_id) (conflicts new) rows active_on-conflicts free,
  )

Change-IsExclusive : {now : Text} {s t : Store} → Change now s t → IsExclusive s → IsExclusive t
Change-IsExclusive {s = s} (insert new q free e) v = record {
  at = λ node. rw e (insert-active_count new q node s.operations free (v.at node));
}
Change-IsExclusive {now} {s} (update u e) v = record {
  at = λ node. rw e (
      omega (
        arith,
        v.at node,
        count_rows-update_rows-le (active_on node) (matches now u) (sets now u) s.operations
            (sets-active_on now node u),
      ));
}
Change-IsExclusive (log x q e) v = record { at = λ node. rw e (v.at node) }

pub Changes-IsExclusive :
    {now : Text} {s t : Store} → Changes now s t → IsExclusive s → IsExclusive t
Changes-IsExclusive nothing v = v
Changes-IsExclusive (also cs c) v = Change-IsExclusive c (Changes-IsExclusive cs v)

-- If no node has two operations queued or running, then no calls, in any order and at any times,
-- lead to a node that has.
pub run-IsExclusive :
    (p : Platform) (cs : List (ℕ × Call)) (s : Store) → IsExclusive s → IsExclusive (run p cs s)
unfolding run
run-IsExclusive p [] s v = v
run-IsExclusive p ((now, c) ∷ cs) s v =
    run-IsExclusive p cs (step p now c s) (Changes-IsExclusive (step-Changes p now c s) v)
