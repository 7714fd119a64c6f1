-- ===== src/Operation/Frozen.antt =====
-- A finished operation never changes, and what a request asked for never does.
use box_fleet.Base.{
  ℕ, ◌≤◌, ◌≡◌, Text, true, false, some, List, [], ◌∷◌, ◌++◌, arith, find_row-append,
  find_row-update_rows, find_row-update_rows_other, Bool-cases, inl, inr, update_rows,
}
use box_fleet.Platform.{Platform}
use box_fleet.Database.{Operation, Store, is_active}
use box_fleet.Operation.Sql.{by_id, get_by_id}
use box_fleet.Operation.Facts.{
  matches-active, sets-by_id, sets-attempt, sets-IsSameRequest, IsSameRequest,
}
use box_fleet.Operation.Steps.{
  Statement, Change, insert, update, log, Changes, nothing, also, Call, step, run, matches, sets,
}
use box_fleet.Operation.Steps.Reports.{step-Changes}

-- A row that an UPDATE does not match stays, and one that it matches is set.
pub get_by_id-update_other :
    (now i : Text) (u : Statement) (rows : List Operation) (r : Operation)
    → get_by_id i rows ≡ some r
    → matches now u r ≡ false
    → get_by_id i (update_rows (matches now u) (sets now u) rows) ≡ some r
unfolding get_by_id
get_by_id-update_other now i u rows r h m =
    find_row-update_rows_other (by_id i) _ _ rows r (λ y _. sets-by_id now i u y) h m

pub get_by_id-update :
    (now i : Text) (u : Statement) (rows : List Operation) (r : Operation)
    → get_by_id i rows ≡ some r
    → matches now u r ≡ true
    → get_by_id i (update_rows (matches now u) (sets now u) rows) ≡ some (sets now u r)
unfolding get_by_id
get_by_id-update now i u rows r h m =
    find_row-update_rows (by_id i) _ _ rows r (λ y _. sets-by_id now i u y) h m

pub get_by_id-append :
    (i : Text) (rows more : List Operation) (r : Operation)
    → get_by_id i rows ≡ some r
    → get_by_id i (rows ++ more) ≡ some r
unfolding get_by_id
get_by_id-append i rows more r h = find_row-append (by_id i) rows more r h

module _ (i : Text) where
  Change-frozen :
      {now : Text} {s t : Store} (r : Operation)
      → Change now s t
      → is_active r.status ≡ false
      → get_by_id i s.operations ≡ some r
      → get_by_id i t.operations ≡ some r
  Change-frozen {s = s} r (insert new q free e) d h =
      rw e (get_by_id-append i s.operations (new ∷ []) r h)
  Change-frozen {now} {s} r (update u e) d h = elim (Bool-cases (matches now u r)) [
    | inl hit ↦ cc (matches-active now u r hit)
    | inr miss ↦ rw e (get_by_id-update_other now i u s.operations r h miss)
  ]
  Change-frozen r (log x q e) d h = rw e h

  pub Changes-frozen :
      {now : Text} {s t : Store} (r : Operation)
      → Changes now s t
      → is_active r.status ≡ false
      → get_by_id i s.operations ≡ some r
      → get_by_id i t.operations ≡ some r
  Changes-frozen r nothing d h = h
  Changes-frozen r (also cs c) d h = Change-frozen r c d (Changes-frozen r cs d h)

  -- An operation that is succeeded, failed, cancelled or expired keeps its whole row, whatever calls
  -- follow.
  pub run-frozen :
      (p : Platform) (cs : List (ℕ × Call)) (s : Store) (r : Operation)
      → is_active r.status ≡ false
      → get_by_id i s.operations ≡ some r
      → get_by_id i (run p cs s).operations ≡ some r
  unfolding run
  run-frozen p [] s r d h = h
  run-frozen p ((now, c) ∷ cs) s r d h =
      run-frozen p cs (step p now c s) r d (Changes-frozen r (step-Changes p now c s) d h)

-- The row `t` is a later state of the row `r`.
pub record IsLater (r t : Operation) : Type 0 where
  pub request : IsSameRequest r t
  pub attempt : r.attempt ≤ t.attempt

abbrev pub HasLater : Text → Operation → Store → Type 0
HasLater i r s = (t : Operation) × (get_by_id i s.operations ≡ some t) × IsLater r t

IsLater-refl : (r : Operation) → IsLater r r
IsLater-refl r = record { request = ground arith; attempt = omega arith }

IsLater-sets :
    (now : Text) (u : Statement) (r t : Operation) → IsLater r t → IsLater r (sets now u t)
IsLater-sets now u r t v = record {
  request = ground (arith, sets-IsSameRequest now u t);
  attempt = omega (arith, sets-attempt now u t, v.attempt);
}

module _ (i : Text) (r : Operation) where
  Change-HasLater : {now : Text} {s t : Store} → Change now s t → HasLater i r s → HasLater i r t
  Change-HasLater {s = s} (insert new q free e) (x, h, v) =
      (x, rw e (get_by_id-append i s.operations (new ∷ []) x h), v)
  Change-HasLater {now} {s} (update u e) (x, h, v) = elim (Bool-cases (matches now u x)) [
    | inl hit ↦ (
      sets now u x,
      rw e (get_by_id-update now i u s.operations x h hit),
      IsLater-sets now u r x v,
    )
    | inr miss ↦ (x, rw e (get_by_id-update_other now i u s.operations x h miss), v)
  ]
  Change-HasLater (log y q e) (x, h, v) = (x, rw e h, v)

  Changes-HasLater : {now : Text} {s t : Store} → Changes now s t → HasLater i r s → HasLater i r t
  Changes-HasLater nothing h = h
  Changes-HasLater (also cs c) h = Change-HasLater c (Changes-HasLater cs h)

  run-HasLater :
      (p : Platform) (cs : List (ℕ × Call)) (s : Store) → HasLater i r s → HasLater i r (run p cs s)
  unfolding run
  run-HasLater p [] s h = h
  run-HasLater p ((now, c) ∷ cs) s h =
      run-HasLater p cs (step p now c s) (Changes-HasLater (step-Changes p now c s) h)

-- An operation is never lost: after any calls it is found under its identifier, with the request that
-- created it unchanged and no fewer attempts.
pub run-IsLater :
    (p : Platform) (cs : List (ℕ × Call)) (s : Store) (i : Text) (r : Operation)
    → get_by_id i s.operations ≡ some r
    → HasLater i r (run p cs s)
run-IsLater p cs s i r h = run-HasLater i r p cs s (r, h, IsLater-refl r)
