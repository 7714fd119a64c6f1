-- ===== src/Campaign/Sync.antt =====
-- The first part of a reconciliation (internal/server/api/update_campaigns.go): each member takes the
-- state of its operation, and one whose node is gone or asleep is skipped.
use box_fleet.Base.{
  ℕ, ◌+◌, ◌*◌, Text, text, same, Bool, true, false, not, ◌&&◌, ◌||◌, Option, none, some, List, [],
  ◌∷◌, ◌==◌, leb, if◌then◌else◌, trim_space,
}
use box_fleet.Platform.{Platform}
use box_fleet.Database.{
  Status, MemberStatus, pending, queued, running, succeeded, failed, cancelled, expired, skipped,
  is_queued, Node, no_rows, Result, ok, err, M, ◌>>=◌, ◌>>◌, return, throw, or_fail, reads, attempt,
}
use box_fleet.Operation.Sql.{get_by_id}
use box_fleet.Operation.Validate.{is_empty}
use box_fleet.Operation.Calls.{OperationView, text_of, get_node, view}
use box_fleet.Operation.Methods.{request_cancel, cancel_unclaimed, try_one}
use box_fleet.Campaign.Sql.{MemberView, is_settled, is_under_way, update_member}

unfoldable pub for_each : {A : Type 0} → (A → M (Unit {0})) → List A → M (Unit {0})
for_each f [] = return tt
for_each f (x ∷ xs) = f x >> for_each f xs

-- 10 minutes in nanoseconds: updateQueueTimeout.
abbrev pub queue_timeout : ℕ
queue_timeout = 600 * 1000000000

abbrev pub same_member_status : MemberStatus → MemberStatus → Bool
same_member_status pending pending = true
same_member_status queued queued = true
same_member_status running running = true
same_member_status succeeded succeeded = true
same_member_status failed failed = true
same_member_status cancelled cancelled = true
same_member_status skipped skipped = true
same_member_status _ _ = false

abbrev is_cancelled : Status → Bool
is_cancelled cancelled = true
is_cancelled _ = false

abbrev is_expired : Status → Bool
is_expired expired = true
is_expired _ = false

-- An operation that expired after it was claimed has failed.
abbrev pub observed : Status → MemberStatus
observed queued = queued
observed running = running
observed succeeded = succeeded
observed failed = failed
observed cancelled = cancelled
observed expired = failed

abbrev waited_since : ℕ → Option ℕ → Bool
waited_since now none = false
waited_since now (some t) = leb (t + queue_timeout) now

module _ (p : Platform) (now : ℕ) (c : Text) where
  -- GetNodeOperation
  unfoldable pub get_operation : Text → M OperationView
  get_operation i = do
    row ← or_fail (← reads (λ s. get_by_id (trim_space i) s.operations)) no_rows
    view p row

  unfoldable pub skip_member : MemberView → Text → M (Unit {0})
  skip_member v message = update_member p now c v.row.node_id skipped message

  -- The member is given the status and the error of its operation, where they differ.
  unfoldable pub take_status : MemberView → OperationView → M (Unit {0})
  take_status v op =
      if is_expired op.status && (op.attempt == 0)
      then skip_member v op.error
      else if not (same_member_status v.row.status (observed op.status))
          || not (same v.row.error op.error)
      then update_member p now c v.row.node_id (observed op.status) op.error
      else return tt

  -- After the cancellation of an unclaimed operation, which a claim may have forestalled.
  unfoldable pub after_cancel : MemberView → OperationView → M (Unit {0})
  unfolding take_status
  after_cancel v op =
      if is_cancelled op.status
      then skip_member v (text "node did not claim the update within 10 minutes")
      else take_status v op

  unfoldable pub sync_operation : MemberView → M (Unit {0})
  unfolding after_cancel
  sync_operation v = do
    op ← get_operation (text_of v.row.operation_id)
    if is_queued op.status && waited_since now (p.parse_time op.requested_at)
        then cancel_unclaimed p now op.id >>= after_cancel v
        else take_status v op

  -- The operation of a member whose node was deleted.
  unfoldable pub abandon : MemberView → M (Unit {0})
  abandon v =
      if not (is_empty (text_of v.row.operation_id)) && is_under_way v.row.status
      then (try_one (request_cancel p now (text_of v.row.operation_id)) >>= λ _. return tt)
      else return tt

  unfoldable pub sync_found : MemberView → Result Node → M (Unit {0})
  unfolding sync_operation abandon
  sync_found v (err no_rows) = abandon v >> skip_member v (text "node was deleted")
  sync_found v (err e) = throw e
  sync_found v (ok n) =
      if is_empty (text_of v.row.operation_id) then return tt else sync_operation v

  unfoldable pub sync_member : MemberView → M (Unit {0})
  unfolding sync_found
  sync_member v =
      if is_settled v.row.status
      then return tt
      else attempt (get_node v.row.node_id) >>= sync_found v
