-- ===== src/Campaign/Progress.antt =====
-- The steps of a campaign keep its batches in order: start, pause, the next batch, and success.
use box_fleet.Base.{
  ℕ, ◌≤◌, ◌≡◌, refl, Text, true, false, ◌&&◌, Option, none, some, List, [], ◌∷◌, arith, ltb,
  find_row, Option-cases, inl, inr, All, find_row-holds, find_row-update_rows,
}
use box_fleet.Platform.{Platform}
use box_fleet.Database.{CampaignStatus, Campaign, Member, Store}
use box_fleet.Campaign.Sql.{
  by_member, is_campaign, campaign_set, update_campaign, MemberView, is_settled, is_pending,
}
use box_fleet.Campaign.Reconcile.{beyond, all_settled, next_batch}
use box_fleet.Campaign.Batches.{InOrder, IsBatched, is_unstarted}
use box_fleet.Campaign.Snapshot.{All-map}

abbrev pub HasBatches : Text → Store → Type 0
HasBatches c s = (x : Campaign) × IsBatched c x s

-- The new row of the campaign, in whose order the members stand.
pub update_campaign-IsBatched :
    (p : Platform) (now : ℕ) (c : Text) (x : Campaign) (s : Store) (status : CampaignStatus)
    (batch : Option ℕ) (message : Text)
    → IsBatched c x s
    → is_unstarted status ≡ false
    → ((y : Campaign) (node : Text) (m : Member)
        → y.status ≡ status
        → y.current_batch ≡ batch
        → find_row (by_member c node) s.members ≡ some m
        → InOrder x m
        → InOrder y m)
    → HasBatches c (update_campaign p now c status batch message s).1
unfolding update_campaign campaign_set is_campaign
update_campaign-IsBatched p now c x s status batch message v u w = (
  _,
  record {
    found =
        find_row-update_rows (is_campaign c) _ _ s.campaigns x (λ y h. refl) (v.found)
          (find_row-holds (is_campaign c) s.campaigns x v.found);
    keyed = v.keyed;
    in_order = λ node m h. w _ node m refl refl h (v.in_order node m h);
    unstarted = λ h. cc;
    linked = v.linked;
  },
)

pub all_settled-All :
    (vs : List MemberView)
    → all_settled vs ≡ true
    → All (λ (v : MemberView). is_settled v.row.status ≡ true) vs
unfolding all_settled
all_settled-All [] h = tt
all_settled-All (v ∷ vs) h = (ground arith, all_settled-All vs (ground arith))

-- No member after the current batch is pending.
pub next_batch-none :
    (current : Option ℕ) (vs : List MemberView)
    → next_batch current vs ≡ none
    → All
        (λ (v : MemberView). (is_pending v.row.status && beyond current v.row.batch_number) ≡ false)
        vs
unfolding next_batch
next_batch-none current [] h = tt
next_batch-none current (v ∷ vs) h = elim (Option-cases (next_batch current vs)) [
  | inl e ↦ (ground arith, next_batch-none current vs e)
  | inr (b, e) ↦ ground arith
]

-- The next batch is after the current one, and no pending member after the current batch is before it.
pub next_batch-beyond :
    (current : Option ℕ) (vs : List MemberView) (b : ℕ)
    → next_batch current vs ≡ some b
    → beyond current b ≡ true
unfolding next_batch
next_batch-beyond current [] b h = cc
next_batch-beyond current (v ∷ vs) b h = elim (Option-cases (next_batch current vs)) [
  | inl e ↦ ground arith
  | inr (a, e) ↦ ground (arith, next_batch-beyond current vs a)
]

pub next_batch-least :
    (current : Option ℕ) (vs : List MemberView) (b k : ℕ)
    → next_batch current vs ≡ some b
    → k ≤ b
    → All
        (λ (v : MemberView).
          (is_pending v.row.status && beyond current v.row.batch_number && ltb v.row.batch_number k)
          ≡ false)
        vs
unfolding next_batch
next_batch-least current [] b k h le = tt
next_batch-least current (v ∷ vs) b k h le = elim (Option-cases (next_batch current vs)) [
  | inl e ↦ (ground arith, All-map _ _ vs (λ w n. ground arith) (next_batch-none current vs e))
  | inr (a, e) ↦ (ground arith, next_batch-least current vs a k e (ground arith))
]
