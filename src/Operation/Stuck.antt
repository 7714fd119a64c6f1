-- ===== src/Operation/Stuck.antt =====
-- A running operation that is asked to cancel, and whose lease runs out, is never finished.
use box_fleet.Base.{
  ℕ, ◌≡◌, refl, Text, true, none, some, List, [], ◌∷◌, arith, find_row-also, Bool-cases, inl, inr,
  upto, same_iff, All,
}
use box_fleet.Platform.{Platform}
use box_fleet.Database.{Operation, Store, running, is_active, ok, err, active_operation, ◌>>=◌}
use box_fleet.Operation.Sql.{
  by_id, get_by_id, get_by_key, get_active, active_on, expire_where, claim_where, lease_held,
  renew_where, cancel_where, cancel_set, cancel_unclaimed_where,
}
use box_fleet.Operation.Calls.{CreateParams, Request, check_request}
use box_fleet.Operation.Methods.{create_tx, create_operation, finish_create, recover}
use box_fleet.Operation.Frozen.{get_by_id-update_other, get_by_id-update, get_by_id-append}
use box_fleet.Operation.Steps.{
  Statement, expire, claim, resume, renew, cancel, drop, apply, Change, insert, update, log,
  Changes, nothing, also, Call, step, run, matches, sets,
}
use box_fleet.Operation.Steps.Reports.{step-Changes}

-- Running, asked to cancel, under a lease that ends at `deadline`.
pub record IsCancelling (deadline : Text) (r : Operation) : Type 0 where
  pub status : r.status ≡ running
  pub requested : r.cancel_requested ≡ true
  pub lease : r.lease_expires_at ≡ some deadline

-- Once the deadline is past, only another request to cancel matches the row.
sets-IsCancelling :
    (now deadline : Text) (u : Statement) (r : Operation)
    → upto deadline now ≡ true
    → IsCancelling deadline r
    → matches now u r ≡ true
    → IsCancelling deadline (sets now u r)
unfolding expire_where claim_where lease_held renew_where cancel_where cancel_unclaimed_where
    cancel_set
sets-IsCancelling now d (expire node) r late v m = ground arith
sets-IsCancelling now d (claim i node hash lease) r late v m = ground arith
sets-IsCancelling now d (resume i node hash lease) r late v m = ground arith
sets-IsCancelling now d (renew i node hash n lease) r late v m = ground arith
sets-IsCancelling now d (cancel i) r late v m = ground arith
sets-IsCancelling now d (drop i) r late v m = ground arith
sets-IsCancelling now d (apply i node hash n next phase result error lease finished) r late v m =
    ground arith

abbrev pub HasCancelling : Text → Text → Store → Type 0
HasCancelling i deadline s =
    (t : Operation) × (get_by_id i s.operations ≡ some t) × IsCancelling deadline t

module _ (i deadline : Text) where
  Change-HasCancelling :
      {now : Text} {s t : Store}
      → upto deadline now ≡ true
      → Change now s t
      → HasCancelling i deadline s
      → HasCancelling i deadline t
  Change-HasCancelling {s = s} late (insert new q free e) (x, h, v) =
      (x, rw e (get_by_id-append i s.operations (new ∷ []) x h), v)
  Change-HasCancelling {now} {s} late (update u e) (x, h, v) = elim (Bool-cases (matches now u x)) [
    | inl hit ↦ (
      sets now u x,
      rw e (get_by_id-update now i u s.operations x h hit),
      sets-IsCancelling now deadline u x late v hit,
    )
    | inr miss ↦ (x, rw e (get_by_id-update_other now i u s.operations x h miss), v)
  ]
  Change-HasCancelling late (log y q e) (x, h, v) = (x, rw e h, v)

  Changes-HasCancelling :
      {now : Text} {s t : Store}
      → upto deadline now ≡ true
      → Changes now s t
      → HasCancelling i deadline s
      → HasCancelling i deadline t
  Changes-HasCancelling late nothing h = h
  Changes-HasCancelling late (also cs c) h =
      Change-HasCancelling late c (Changes-HasCancelling late cs h)

  -- A running operation that is asked to cancel and whose lease has run out stays so under its old
  -- lease, whatever calls follow at times after the deadline: no claim, event, renewal or
  -- expiry ends it.
  pub run-HasCancelling :
      (p : Platform) (cs : List (ℕ × Call)) (s : Store)
      → All (λ (c : ℕ × Call). upto deadline (p.sql_time c.0) ≡ true) cs
      → HasCancelling i deadline s
      → HasCancelling i deadline (run p cs s)
  unfolding run
  run-HasCancelling p [] s late h = h
  run-HasCancelling p ((now, c) ∷ cs) s late h =
      run-HasCancelling p cs (step p now c s) late.1
        (Changes-HasCancelling late.0 (step-Changes p now c s) h)

active_on_of :
    (node : Text) (r : Operation)
    → r.node_id ≡ node
    → is_active r.status ≡ true
    → active_on node r ≡ true
unfolding active_on
active_on_of node r e a = ground (arith, same_iff r.node_id node)

create_tx-active :
    (p : Platform) (now : ℕ) (fresh : Text) (q : Request) (s : Store) (x : Operation)
    → get_active q.node.id s.operations ≡ some x
    → get_by_key q.node.id q.idempotency_key s.operations ≡ none
    → create_tx p now fresh q s ≡ (err active_operation, s)
unfolding create_tx ◌>>=◌
create_tx-active p now fresh q s x h k = rw (k, h) refl

-- A request that passes the checks, for a node with an active operation and under an idempotency key
-- that the node has not used, is refused with ErrActiveNodeOperation, and nothing is written.
pub create_operation-active :
    (p : Platform) (now : ℕ) (fresh i : Text) (params : CreateParams) (q : Request) (s : Store)
    (r : Operation)
    → check_request p params s ≡ (ok q, s)
    → get_by_id i s.operations ≡ some r
    → r.node_id ≡ q.node.id
    → is_active r.status ≡ true
    → get_by_key q.node.id q.idempotency_key s.operations ≡ none
    → create_operation p now fresh params s ≡ (err active_operation, s)
unfolding create_operation finish_create recover ◌>>=◌ get_active get_by_id
create_operation-active p now fresh i params q s r c h n a k =
    let on = active_on_of q.node.id r n a in
    let (x, found) = find_row-also (active_on q.node.id) (by_id i) s.operations r h on in
    rw (c, create_tx-active p now fresh q s x found k, k) refl
