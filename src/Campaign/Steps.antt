-- ===== src/Campaign/Steps.antt =====
-- The administrator's calls on a campaign, and runs of calls.
use box_fleet.Base.{
  ℕ, ◌≡◌, refl, Text, text, Bool, true, false, not, Option, List, [], ◌∷◌, arith, trim_space, ◌==◌,
}
use box_fleet.Platform.{Platform}
use box_fleet.Database.{
  CampaignStatus, running, paused, cancelled, Status, Campaign, Store, Failure, M, ◌>>=◌, guard,
}
use box_fleet.Operation.Steps.{Call, step}
use box_fleet.Operation.Steps.Rules.{Writes, Writes-return, Writes-guard, Writes-bind, chain}
use box_fleet.Operation.Steps.Writes.{Writes-create_operation, Writes-request_cancel}
use box_fleet.Operation.Steps.Reports.{step-Changes}
use box_fleet.Campaign.Sql.{
  update_campaign, MemberView, same_batch, list_members, get_detail, replace_operation,
  replace_where, replace_set,
}
use box_fleet.Campaign.Sync.{for_each}
use box_fleet.Campaign.Reconcile.{reconcile}
use box_fleet.Campaign.Admin.{
  is_paused, cancel_member, cancel_campaign, to_retry, retry_member, retry_members, resume_campaign,
}
use box_fleet.Campaign.Batches.{IsBatched, KeepsKey, is_complete}
use box_fleet.Campaign.Visits.{
  Visits, Visits-bind, Visits-assign, Changes-SameTables, SameTables-IsBatched,
}
use box_fleet.Campaign.Members.{current-InOrder}
use box_fleet.Campaign.Loops.{Keeps, Keeps-visit, Keeps-return, Keeps-then, Keeps-skip, Keeps-if}
use box_fleet.Campaign.Progress.{HasBatches, update_campaign-IsBatched}
use box_fleet.Campaign.Ordered.{
  own_id, detail_of, read-HasBatches, next-HasBatches, Orders, same-InOrder,
}
use box_fleet.Campaign.Advance.{list_members-IsSnapshot, then-HasBatches, Orders-get_detail}
use box_fleet.Campaign.Runs.{Orders-reconcile}

-- A call on the campaign, with the identifiers drawn for its operations, or on operations.
pub data CampaignCall : Type 0 where
  reconciles : (ids : Text → Text) → CampaignCall
  cancels_campaign : CampaignCall
  resumes : (ids : Text → Text) → CampaignCall
  operates : Call → CampaignCall

unfoldable pub campaign_step : Platform → Text → ℕ → CampaignCall → Store → Store
campaign_step p c now (reconciles ids) s = (reconcile p now ids c s).1
campaign_step p c now cancels_campaign s = (cancel_campaign p now c s).1
campaign_step p c now (resumes ids) s = (resume_campaign p now ids c s).1
campaign_step p c now (operates call) s = step p now call s

unfoldable pub campaign_run : Platform → Text → List (ℕ × CampaignCall) → Store → Store
campaign_run p c [] s = s
campaign_run p c ((now, call) ∷ calls) s = campaign_run p c calls (campaign_step p c now call s)

Orders-Writes : {now c : Text} {A : Type 0} (m : M A) → Writes now m → Orders c m
Orders-Writes m w = record {
  at = λ s h. (h.0, SameTables-IsBatched s _ (Changes-SameTables (w.at s)) h.1);
}

guard-HasBatches :
    {c : Text} {A : Type 0} (b : Bool) (e : Failure) (k : M A) (s : Store)
    → HasBatches c s
    → (b ≡ true → HasBatches c (k s).1)
    → HasBatches c ((guard b e >>= λ _. k) s).1
unfolding ◌>>=◌
guard-HasBatches true e k s h w = w refl
guard-HasBatches false e k s h w = h

Writes-for_each :
    {now : Text} (f : MemberView → M (Unit {0})) (vs : List MemberView)
    → ((v : MemberView) → Writes now (f v))
    → Writes now (for_each f vs)
unfolding for_each
Writes-for_each f [] w = Writes-return tt
Writes-for_each f (v ∷ vs) w = Writes-bind _ _ (w v) (λ _. Writes-for_each f vs w)

module _ (p : Platform) (now : ℕ) (c : Text) (trimmed : trim_space c ≡ c) where
  Writes-cancel_member : (v : MemberView) → Writes (p.sql_time now) (cancel_member p now v)
  unfolding cancel_member
  Writes-cancel_member v = search (chain, Writes-request_cancel) depth 9

  Writes-get_detail : (i : Text) → Writes (p.sql_time now) (get_detail p i)
  unfolding get_detail
  Writes-get_detail i = search chain depth 9

  cancelled-HasBatches :
      (x : Campaign) (s : Store)
      → IsBatched c x s
      → HasBatches c
          (update_campaign p now x.id cancelled x.current_batch (text "cancelled by admin") s).1
  cancelled-HasBatches x s v = rw (own_id c x s v) (
      update_campaign-IsBatched p now c x s cancelled x.current_batch _ v refl
        λ y node m a b h o. same-InOrder x y m b (rw a refl) o)

  Orders-cancel_campaign : Orders c (cancel_campaign p now c)
  unfolding cancel_campaign
  Orders-cancel_campaign = record {
    at = λ s h. read-HasBatches p c trimmed _ h.0 s h.1 (
        guard-HasBatches _ _ _ s h λ _. then-HasBatches _ _ s (cancelled-HasBatches h.0 s h.1) (
          Orders-Writes {now = p.sql_time now} _ (
            Writes-bind _ _ (Writes-for_each _ _ Writes-cancel_member)
              λ _. search (chain, Writes-get_detail))));
  }

  replace_set-KeepsKey : (i : Option Text) (st : _) → KeepsKey (replace_set (p.sql_time now) i st)
  unfolding replace_set
  replace_set-KeepsKey i st = record { campaign_id = λ m. refl; node_id = λ m. refl }

  module _ (ids : Text → Text) (x : Campaign) (s0 : Store)
      (unfinished : is_complete x.status ≡ false) where
    Visits-replace_operation :
        (v : MemberView) (i : Text) (status : Status)
        → same_batch x.current_batch v.row.batch_number ≡ true
        → Visits c x v (replace_operation p now c v.row.node_id i status)
    unfolding replace_operation replace_where replace_set
    Visits-replace_operation v i status current =
        Visits-bind {now = p.sql_time now} _ _ (search chain) λ st.
          Visits-assign v _ _ (replace_set-KeepsKey _ _) (λ m h. ground arith)
            (λ h o. current-InOrder p now c x unfinished v _ current refl) i

    replace_own :
        (v : MemberView) (j i : Text) (status : Status)
        → j ≡ c
        → same_batch x.current_batch v.row.batch_number ≡ true
        → Visits c x v (replace_operation p now j v.row.node_id i status)
    replace_own v j i status own current = rw own (Visits-replace_operation v i status current)

    Visits-retry_member :
        (v : MemberView)
        → x.id ≡ c
        → to_retry p now (detail_of c x s0) v ≡ true
        → Visits c x v (retry_member p now ids (detail_of c x s0) v)
    unfolding retry_member
    Visits-retry_member v own h = Visits-bind {now = p.sql_time now} _ _ (Writes-guard _ _) λ _.
        Visits-bind {now = p.sql_time now} _ _ (Writes-create_operation p now _ _)
          λ r. replace_own v x.id r.0.id r.0.status own (ground arith)

    Keeps-retry_members :
        (vs : List MemberView)
        → x.id ≡ c
        → Keeps c x vs (retry_members p now ids (detail_of c x s0) vs)
    unfolding retry_members
    Keeps-retry_members [] own = Keeps-return [] 0
    Keeps-retry_members (v ∷ vs) own =
        Keeps-if _ _ _ _
          (λ h. Keeps-visit v vs _ _ (Visits-retry_member v own h) λ _.
            Keeps-then (p.sql_time now) vs _ _ (Keeps-retry_members vs own) λ n. Writes-return _)
          (Keeps-skip v vs _ (Keeps-retry_members vs own))

  paused_unfinished : (st : CampaignStatus) → is_paused st ≡ true → is_complete st ≡ false
  paused_unfinished paused h = refl
  paused_unfinished _ h = ground arith

  resumed-HasBatches :
      (x : Campaign) (s : Store)
      → IsBatched c x s
      → HasBatches c (update_campaign p now x.id running x.current_batch [] s).1
  resumed-HasBatches x s v = rw (own_id c x s v) (
      update_campaign-IsBatched p now c x s running x.current_batch _ v refl
        λ y node m a b h o. same-InOrder x y m b (rw a refl) o)

  -- After the members were retried.
  resume_rest :
      (x : Campaign) (s : Store) (n : ℕ) (e : Failure)
      → IsBatched c x s
      → HasBatches c
          ((guard (not (n == 0)) e >>= λ _.
              update_campaign p now x.id running x.current_batch [] >>= λ _. get_detail p x.id)
            s).1
  resume_rest x s n e v =
      guard-HasBatches _ _ _ s (x, v)
        λ _.
          then-HasBatches _ _ s (resumed-HasBatches x s v)
            (rw (own_id c x s v) (Orders-get_detail p now (λ i. i) c trimmed))

  Orders-resume_campaign : (ids : Text → Text) → Orders c (resume_campaign p now ids c)
  unfolding resume_campaign
  Orders-resume_campaign ids = record {
    at = λ s h. read-HasBatches p c trimmed _ h.0 s h.1 (
        guard-HasBatches _ _ _ s h λ q.
          let w =
            (Keeps-retry_members ids h.0 s (paused_unfinished h.0.status q) (list_members c s)
                (own_id c h.0 s h.1)).at
              s (list_members-IsSnapshot c h.0 s h.1) h.1 in
          next-HasBatches _ _ s (h.0, w) (λ n _. resume_rest h.0 _ n _ w));
  }

  step-HasBatches :
      (call : CampaignCall) (s : Store)
      → HasBatches c s
      → HasBatches c (campaign_step p c now call s)
  unfolding campaign_step
  step-HasBatches (reconciles ids) s h = (Orders-reconcile p now ids c trimmed).at s h
  step-HasBatches cancels_campaign s h = Orders-cancel_campaign.at s h
  step-HasBatches (resumes ids) s h = (Orders-resume_campaign ids).at s h
  step-HasBatches (operates call) s h =
      (h.0, SameTables-IsBatched s _ (Changes-SameTables (step-Changes p now call s)) h.1)

-- If the batches of a campaign are in order, then they are so after any reconciliations, cancellations
-- and resumptions of it and any calls on operations, in any order and at any times, whether the calls
-- succeed or fail: the members of the batches before the current one are succeeded or skipped, those
-- of later batches have no operation, and in a campaign that succeeded every member is succeeded or
-- skipped. The identifier of the campaign has no white space around it.
pub campaign_run-HasBatches :
    (p : Platform) (c : Text) (calls : List (ℕ × CampaignCall)) (s : Store)
    → trim_space c ≡ c
    → HasBatches c s
    → HasBatches c (campaign_run p c calls s)
unfolding campaign_run
campaign_run-HasBatches p c [] s t h = h
campaign_run-HasBatches p c ((now, call) ∷ calls) s t h =
    campaign_run-HasBatches p c calls (campaign_step p c now call s) t
      (step-HasBatches p now c t call s h)
