-- ===== src/Campaign/Kept.antt =====
-- Runs of calls on a campaign and on operations keep what single calls on operations keep.
use box_fleet.Base.{false, ◌≡◌, ℕ, Text, Bool, Option, none, some, List, [], ◌∷◌, zero, suc}
use box_fleet.Platform.{Platform}
use box_fleet.Operation.Frozen.{Changes-frozen}
use box_fleet.Operation.Sql.{get_by_id}
use box_fleet.Database.{
  Operation, is_active, CampaignStatus, Status, queued, running, paused, succeeded, cancelled, Node,
  Store, no_rows, active_operation, Result, ok, err, M,
}
use box_fleet.Operation.Calls.{OperationView}
use box_fleet.Operation.Steps.Reports.{step-Changes}
use box_fleet.Operation.OneActive.{IsExclusive, Changes-IsExclusive}
use box_fleet.Operation.Log.{IsLog, Changes-IsLog}
use box_fleet.Campaign.Sql.{MemberView, Detail, attach_operation, replace_operation}
use box_fleet.Campaign.Reconcile.{
  attach_created, dispatch_to, dispatch_member, dispatch_all, follow, complete, dispatch, run_batch,
  advance, iterate, reconcile,
}
use box_fleet.Campaign.Admin.{cancel_campaign, retry_member, retry_members, resume_campaign}
use box_fleet.Campaign.Safe.{
  IsKept, IsSafe, IsSafe-if, IsSafe-bind, IsSafe-attempt, IsSafe-for_each, IsSafe-return,
  IsSafe-throw, IsSafe-guard, IsSafe-or_fail, IsSafe-get_node, IsSafe-get_detail,
  IsSafe-create_operation, IsSafe-cancel_member, IsSafe-update_campaign, IsSafe-assign,
  IsSafe-skip_member, IsSafe-sync_member,
}
use box_fleet.Campaign.Steps.{
  CampaignCall, reconciles, cancels_campaign, resumes, operates, campaign_step, campaign_run,
}

module _ (p : Platform) (now : ℕ) (I : Store → Type 0) (kept : IsKept (p.sql_time now) I)
    (ids : Text → Text) (c : Text) where
  IsSafe-attach_operation :
      (node i : Text) (st : Status) → IsSafe I (attach_operation p now c node i st)
  unfolding attach_operation
  IsSafe-attach_operation node i st = search (IsSafe-bind, IsSafe-or_fail, IsSafe-assign)

  IsSafe-attach_created :
      (v : MemberView) (r : Result (OperationView × Bool))
      → IsSafe I (attach_created p now ids c v r)
  unfolding attach_created
  IsSafe-attach_created v (err active_operation) = search IsSafe-return
  IsSafe-attach_created v (err _) = search IsSafe-throw
  IsSafe-attach_created v (ok (op, created)) =
      search (IsSafe-bind, IsSafe-attach_operation, IsSafe-return)

  IsSafe-dispatch_to :
      (d : Detail) (v : MemberView) (r : Result Node) → IsSafe I (dispatch_to p now ids c d v r)
  unfolding dispatch_to
  IsSafe-dispatch_to d v (err no_rows) = search (IsSafe-bind, IsSafe-skip_member, IsSafe-return)
  IsSafe-dispatch_to d v (err _) = search IsSafe-throw
  IsSafe-dispatch_to d v (ok n) = search (
    IsSafe-if, IsSafe-bind, IsSafe-skip_member, IsSafe-return, IsSafe-attempt,
    IsSafe-create_operation, IsSafe-attach_created,
  )

  IsSafe-dispatch_member :
      (d : Detail) (v : MemberView) → IsSafe I (dispatch_member p now ids c d v)
  unfolding dispatch_member
  IsSafe-dispatch_member d v = search (
    IsSafe-if, IsSafe-bind, IsSafe-skip_member, IsSafe-return, IsSafe-attempt, IsSafe-get_node,
    IsSafe-dispatch_to,
  )

  IsSafe-dispatch_all :
      (d : Detail) (vs : List MemberView) → IsSafe I (dispatch_all p now ids c d vs)
  unfolding dispatch_all
  IsSafe-dispatch_all d [] = search IsSafe-return
  IsSafe-dispatch_all d (v ∷ vs) =
      IsSafe-bind _ _ (IsSafe-dispatch_member d v)
        λ one. IsSafe-bind _ _ (IsSafe-dispatch_all d vs) λ rest. search IsSafe-return

  module _ (again : M Detail) (ih : IsSafe I again) where
    IsSafe-follow : (d : Detail) (o : Option ℕ) → IsSafe I (follow p now ids c again d o)
    unfolding follow
    IsSafe-follow d none = search (IsSafe-bind, IsSafe-update_campaign, IsSafe-get_detail)
    IsSafe-follow d (some b) = search (IsSafe-bind, IsSafe-update_campaign)

    IsSafe-dispatch :
        (d : Detail) (vs : List MemberView) (o : Option MemberView)
        → IsSafe I (dispatch p now ids c again d vs o)
    unfolding dispatch complete
    IsSafe-dispatch d vs (some v) = search (IsSafe-bind, IsSafe-update_campaign, IsSafe-get_detail)
    IsSafe-dispatch d vs none = search (
      IsSafe-if, IsSafe-bind, IsSafe-dispatch_all, IsSafe-get_detail, IsSafe-follow, IsSafe-return,
    )

    IsSafe-run_batch :
        (d : Detail) (vs : List MemberView) → IsSafe I (run_batch p now ids c again d vs)
    unfolding run_batch
    IsSafe-run_batch d [] = search IsSafe-throw
    IsSafe-run_batch d (v ∷ vs) = IsSafe-dispatch d (v ∷ vs) _

    IsSafe-advance : (d : Detail) (st : CampaignStatus) → IsSafe I (advance p now ids c again d st)
    unfolding advance
    IsSafe-advance d queued = search (IsSafe-bind, IsSafe-update_campaign)
    IsSafe-advance d running = IsSafe-run_batch d _
    IsSafe-advance d paused = IsSafe-run_batch d _
    IsSafe-advance d succeeded = IsSafe-run_batch d _
    IsSafe-advance d cancelled = IsSafe-run_batch d _

  IsSafe-iterate : (fuel : ℕ) → IsSafe I (iterate p now ids c fuel)
  unfolding iterate
  IsSafe-iterate zero = search IsSafe-get_detail
  IsSafe-iterate (suc fuel) =
      let ih = IsSafe-iterate fuel in
      search
        (
          IsSafe-if, IsSafe-bind, IsSafe-get_detail, IsSafe-return, IsSafe-for_each,
          IsSafe-sync_member, IsSafe-advance,
        )
        depth 9

  IsSafe-cancel_campaign : IsSafe I (cancel_campaign p now c)
  unfolding cancel_campaign
  IsSafe-cancel_campaign =
      search
        (
          IsSafe-bind, IsSafe-get_detail, IsSafe-guard, IsSafe-update_campaign, IsSafe-for_each,
          IsSafe-cancel_member, IsSafe-attempt, IsSafe-return,
        )
        depth 12

  IsSafe-retry_member : (d : Detail) (v : MemberView) → IsSafe I (retry_member p now ids d v)
  unfolding retry_member replace_operation
  IsSafe-retry_member d v =
      search (IsSafe-bind, IsSafe-guard, IsSafe-create_operation, IsSafe-or_fail, IsSafe-assign)
        depth 9

  IsSafe-retry_members :
      (d : Detail) (vs : List MemberView) → IsSafe I (retry_members p now ids d vs)
  unfolding retry_members
  IsSafe-retry_members d [] = search IsSafe-return
  IsSafe-retry_members d (v ∷ vs) =
      let ih = IsSafe-retry_members d vs in
      search (IsSafe-if, IsSafe-bind, IsSafe-retry_member, IsSafe-return)

  IsSafe-resume_campaign : IsSafe I (resume_campaign p now ids c)
  unfolding resume_campaign
  IsSafe-resume_campaign =
      search
        (IsSafe-bind, IsSafe-get_detail, IsSafe-guard, IsSafe-retry_members, IsSafe-update_campaign)
        depth 12

module _ (p : Platform) (c : Text) (I : Store → Type 0)
    (kept : (now : ℕ) → IsKept (p.sql_time now) I) where
  campaign_step-kept :
      (now : ℕ) (call : CampaignCall) (s : Store) → I s → I (campaign_step p c now call s)
  unfolding campaign_step reconcile
  campaign_step-kept now (reconciles ids) s h = (IsSafe-iterate p now I (kept now) ids c 4).at s h
  campaign_step-kept now cancels_campaign s h =
      (IsSafe-cancel_campaign p now I (kept now) (λ i. i) c).at s h
  campaign_step-kept now (resumes ids) s h =
      (IsSafe-resume_campaign p now I (kept now) ids c).at s h
  campaign_step-kept now (operates call) s h = (kept now).changes s _ (step-Changes p now call s) h

  campaign_run-kept :
      (calls : List (ℕ × CampaignCall)) (s : Store) → I s → I (campaign_run p c calls s)
  unfolding campaign_run
  campaign_run-kept [] s h = h
  campaign_run-kept ((now, call) ∷ calls) s h =
      campaign_run-kept calls _ (campaign_step-kept now call s h)

-- If no node has two operations queued or running, then none has after any reconciliations,
-- cancellations and resumptions of a campaign and any calls on operations, in any order and at any
-- times.
pub campaign_run-IsExclusive :
    (p : Platform) (c : Text) (calls : List (ℕ × CampaignCall)) (s : Store)
    → IsExclusive s
    → IsExclusive (campaign_run p c calls s)
campaign_run-IsExclusive p c calls s v =
    campaign_run-kept p c IsExclusive
      (λ now. record {
        changes = λ a b ch h. Changes-IsExclusive ch h;
        campaigns = λ a xs h. record { at = h.at };
        members = λ a ms h. record { at = h.at };
      })
      calls s v

-- If the events of each attempt of each operation are numbered from 1 to the last, each number once,
-- then so they are after any reconciliations, cancellations and resumptions of a campaign and any
-- calls on operations.
pub campaign_run-IsLog :
    (p : Platform) (c : Text) (calls : List (ℕ × CampaignCall)) (s : Store)
    → IsLog s.events
    → IsLog (campaign_run p c calls s).events
campaign_run-IsLog p c calls s v =
    campaign_run-kept p c (λ s. IsLog s.events)
      (λ now. record {
        changes = λ a b ch h. Changes-IsLog ch h;
        campaigns = λ a xs h. h;
        members = λ a ms h. h;
      })
      calls s v

-- An operation that is succeeded, failed, cancelled or expired keeps its whole row, whatever
-- reconciliations, cancellations and resumptions of a campaign and calls on operations follow.
pub campaign_run-frozen :
    (p : Platform) (c i : Text) (calls : List (ℕ × CampaignCall)) (s : Store) (r : Operation)
    → is_active r.status ≡ false
    → get_by_id i s.operations ≡ some r
    → get_by_id i (campaign_run p c calls s).operations ≡ some r
campaign_run-frozen p c i calls s r d h =
    campaign_run-kept p c (λ s. get_by_id i s.operations ≡ some r)
      (λ now. record {
        changes = λ a b ch k. Changes-frozen i r ch d k;
        campaigns = λ a xs k. k;
        members = λ a ms k. k;
      })
      calls s h
