-- ===== src/Campaign/Runs.antt =====
-- The calls on one campaign, with calls on operations between them, keep its batches in order.
use box_fleet.Base.{
  ℕ, ◌≡◌, refl, Text, Bool, true, false, some, zero, suc, trim_space, if◌then◌else◌,
}
use box_fleet.Platform.{Platform}
use box_fleet.Database.{
  CampaignStatus, queued, running, paused, succeeded, cancelled, Campaign, Store, M, ◌>>=◌, return,
}
use box_fleet.Campaign.Sql.{Detail, list_members, get_detail}
use box_fleet.Campaign.Sync.{for_each, sync_member}
use box_fleet.Campaign.Reconcile.{advance, is_stopped, iterate, reconcile}
use box_fleet.Campaign.Batches.{IsBatched, is_complete}
use box_fleet.Campaign.Members.{Visits-sync_member}
use box_fleet.Campaign.Loops.{Keeps-for_each}
use box_fleet.Campaign.Progress.{HasBatches, update_campaign-IsBatched}
use box_fleet.Campaign.Ordered.{detail_of, read-HasBatches, next-HasBatches, Orders, first-InOrder}
use box_fleet.Campaign.Advance.{
  list_members-IsSnapshot, then-HasBatches, Orders-get_detail, Orders-run_batch,
}

not_complete : (st : CampaignStatus) → is_stopped st ≡ false → is_complete st ≡ false
not_complete queued h = refl
not_complete running h = refl
not_complete paused h = cc
not_complete succeeded h = cc
not_complete cancelled h = cc

module _ (p : Platform) (now : ℕ) (ids : Text → Text) (c : Text) (trimmed : trim_space c ≡ c) where
  Orders-advance :
      (again : M Detail) (x : Campaign) (s : Store) (st : CampaignStatus)
      → Orders c again
      → IsBatched c x s
      → x.status ≡ st
      → is_complete st ≡ false
      → HasBatches c (advance p now ids c again (detail_of c x s) st s).1
  unfolding advance
  Orders-advance again x s queued ih v e u =
      then-HasBatches _ _ s
        (update_campaign-IsBatched p now c x s running (some 0) _ v refl
          λ y node m a b h o. first-InOrder x y m (v.unstarted (rw e refl)) b (rw a refl) o)
        ih
  Orders-advance again x s running ih v e u =
      Orders-run_batch p now ids c trimmed again ih x s _ v (rw e refl) refl
  Orders-advance again x s paused ih v e u =
      Orders-run_batch p now ids c trimmed again ih x s _ v (rw e refl) refl
  Orders-advance again x s succeeded ih v e u = cc
  Orders-advance again x s cancelled ih v e u =
      Orders-run_batch p now ids c trimmed again ih x s _ v (rw e refl) refl

  after_sync :
      (again : M Detail) (x : Campaign) (t : Store)
      → Orders c again
      → IsBatched c x t
      → is_stopped x.status ≡ false
      → HasBatches c ((get_detail p c >>= λ d. advance p now ids c again d d.campaign.status) t).1
  after_sync again x t ih w u =
      read-HasBatches p c trimmed _ x t w
        (Orders-advance again x t x.status ih w refl (not_complete x.status u))

  one_iteration :
      (again : M Detail) (x : Campaign) (s : Store)
      → Orders c again
      → IsBatched c x s
      → (stopped : Bool) → is_stopped x.status ≡ stopped
      → HasBatches c
          ((if stopped
              then return (detail_of c x s)
              else (for_each (sync_member p now c) (list_members c s) >>= λ _.
                  get_detail p c >>= λ d. advance p now ids c again d d.campaign.status))
            s).1
  unfolding return
  one_iteration again x s ih v true u = (x, v)
  one_iteration again x s ih v false u =
      let w =
        (Keeps-for_each (sync_member p now c) (list_members c s)
            (Visits-sync_member p now c x (not_complete x.status u))).at
          s (list_members-IsSnapshot c x s v) v in
      next-HasBatches _ _ s (x, w) (λ _ _. after_sync again x _ ih w u)

  Orders-iterate : (fuel : ℕ) → Orders c (iterate p now ids c fuel)
  unfolding iterate
  Orders-iterate zero = Orders-get_detail p now ids c trimmed
  Orders-iterate (suc fuel) = record {
    at = λ s h.
        read-HasBatches p c trimmed _ h.0 s h.1
          (one_iteration (iterate p now ids c fuel) h.0 s (Orders-iterate fuel) h.1 _ refl);
  }

  -- A reconciliation keeps the batches of its campaign in order, whether it succeeds or fails.
  pub Orders-reconcile : Orders c (reconcile p now ids c)
  unfolding reconcile
  Orders-reconcile = Orders-iterate 4
