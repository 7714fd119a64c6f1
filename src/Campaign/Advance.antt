-- ===== src/Campaign/Advance.antt =====
-- The iterations of a reconciliation, each of which keeps the batches in order.
use box_fleet.Base.{
  ℕ, ◌≤◌, ◌≡◌, refl, sym, Text, Bool, true, false, Option, none, some, List, [], ◌∷◌, arith,
  find_row, keep_rows, count_rows, Bool-cases, inl, inr, All, trim_space, if◌then◌else◌,
}
use box_fleet.Platform.{Platform}
use box_fleet.Database.{
  running, paused, succeeded, Campaign, Member, Store, Result, ok, M, ◌>>=◌, return, throw,
}
use box_fleet.Operation.Steps.Rules.{Writes-return}
use box_fleet.Campaign.Sql.{
  by_member, MemberView, Detail, is_settled, same_batch, list_members, get_detail,
}
use box_fleet.Campaign.Reconcile.{
  in_batch, all_settled, next_batch, dispatch_all, follow, complete, dispatch, run_batch,
}
use box_fleet.Campaign.Batches.{IsBatched, is_complete}
use box_fleet.Campaign.Snapshot.{
  list_members-Stands, list_members-keyed, All-map, All-keep_rows, view_at, Stands,
}
use box_fleet.Campaign.Covers.{keep_rows-All, list_members-All}
use box_fleet.Campaign.Members.{Visits-dispatch_member}
use box_fleet.Campaign.Unmoved.{IsUnmoved-dispatch_all, says_no}
use box_fleet.Campaign.Loops.{IsSnapshot, Keeps, Keeps-visit, Keeps-return, Keeps-then}
use box_fleet.Campaign.Progress.{
  HasBatches, update_campaign-IsBatched, all_settled-All, next_batch-none, next_batch-beyond,
  next_batch-least,
}
use box_fleet.Campaign.Ordered.{
  detail_of, get_detail-HasBatches, next-HasBatches, Orders, next-InOrder, last-InOrder,
  same-InOrder,
}

pub list_members-IsSnapshot :
    (c : Text) (x : Campaign) (s : Store) → IsBatched c x s → IsSnapshot c (list_members c s) s
list_members-IsSnapshot c x s v = record {
  stands = list_members-Stands c s v.keyed;
  keyed = list_members-keyed c s v.keyed;
}

count_rows-keep :
    (q r : MemberView → Bool) (vs : List MemberView)
    → count_rows r (keep_rows q vs) ≤ count_rows r vs
unfolding count_rows keep_rows
count_rows-keep q r [] = omega arith
count_rows-keep q r (v ∷ vs) = ground (arith, count_rows-keep q r vs)

All-true : (vs : List MemberView) (P : MemberView → Type 0) → ((v : MemberView) → P v) → All P vs
All-true [] P h = tt
All-true (v ∷ vs) P h = (h v, All-true vs P h)

keep_rows-IsSnapshot :
    (c : Text) (q : MemberView → Bool) (vs : List MemberView) (s : Store)
    → IsSnapshot c vs s
    → IsSnapshot c (keep_rows q vs) s
keep_rows-IsSnapshot c q vs s k = record {
  stands = All-keep_rows (Stands c s) q vs (All-map _ _ vs (λ v h _. h) (k.stands));
  keyed = λ node. omega (arith, k.keyed node, count_rows-keep q (view_at node) vs);
}

pub then-HasBatches :
    {c : Text} {A B : Type 0} (m : M A) (k : M B) (s : Store)
    → HasBatches c (m s).1
    → Orders c k
    → HasBatches c ((m >>= λ _. k) s).1
then-HasBatches m k s h w = next-HasBatches m (λ _. k) s h (λ _ _. w.at _ h)

module _ (p : Platform) (now : ℕ) (ids : Text → Text) (c : Text) (trimmed : trim_space c ≡ c) where
  Keeps-dispatch_all :
      (x : Campaign) (d : Detail) (vs : List MemberView)
      → is_complete x.status ≡ false
      → All (λ (v : MemberView). in_batch x.current_batch v ≡ true) vs
      → Keeps c x vs (dispatch_all p now ids c d vs)
  unfolding dispatch_all
  Keeps-dispatch_all x d [] u a = Keeps-return [] false
  Keeps-dispatch_all x d (v ∷ vs) u a =
      Keeps-visit v vs _ _ (Visits-dispatch_member p now c x u v ids d a.0) λ one.
        Keeps-then (p.sql_time now) vs _ _ (Keeps-dispatch_all x d vs u a.1) λ rest. Writes-return _

  pub Orders-get_detail : Orders c (get_detail p c)
  Orders-get_detail = record { at = λ s h. get_detail-HasBatches p c trimmed h.0 s h.1 }

  -- Every row of the current batch is done, if every view is.
  current_settled :
      (x : Campaign) (s : Store)
      → IsBatched c x s
      → all_settled (keep_rows (in_batch x.current_batch) (list_members c s)) ≡ true
      → (node : Text) (m : Member) → find_row (by_member c node) s.members ≡ some m
      → same_batch x.current_batch m.batch_number ≡ true
      → is_settled m.status ≡ true
  current_settled x s v done node m h =
      list_members-All
        (λ m. same_batch x.current_batch m.batch_number ≡ true → is_settled m.status ≡ true) c node
        s m v.linked (keep_rows-All _ _ _ (all_settled-All _ done)) h

  module _ (again : M Detail) (ih : Orders c again) where
    -- All of the current batch is done.
    Orders-follow :
        (x : Campaign) (s : Store) (o : Option ℕ)
        → IsBatched c x s
        → next_batch x.current_batch (list_members c s) ≡ o
        → all_settled (keep_rows (in_batch x.current_batch) (list_members c s)) ≡ true
        → HasBatches c (follow p now ids c again (detail_of c x s) o s).1
    unfolding follow
    Orders-follow x s none v e done =
        then-HasBatches _ _ s
          (update_campaign-IsBatched p now c x s succeeded x.current_batch _ v refl
            λ y node m st b h o.
              last-InOrder x y m (current_settled x s v done node m h)
                (list_members-All _ c node s m v.linked (next_batch-none _ _ e) h) b o)
          Orders-get_detail
    Orders-follow x s (some k) v e done =
        then-HasBatches _ _ s
          (update_campaign-IsBatched p now c x s running (some k) _ v refl λ y node m st b h o.
            next-InOrder x y k m (current_settled x s v done node m h)
              (list_members-All _ c node s m v.linked (next_batch-least _ _ k k e (omega arith)) h)
              (next_batch-beyond _ _ k e) b (rw st refl) o)
          ih

    Orders-complete :
        (x : Campaign) (s : Store)
        → IsBatched c x s
        → HasBatches c
            (complete p now ids c again
              (detail_of c x s)
              (keep_rows (in_batch x.current_batch) (list_members c s))
              s).1
    unfolding complete return
    Orders-complete x s v =
        elim (Bool-cases (all_settled (keep_rows (in_batch x.current_batch) (list_members c s)))) [
          | inl done ↦ rw done (Orders-follow x s _ v refl done)
          | inr more ↦ rw more (x, v)
        ]

    -- After the dispatch of the current batch.
    after_dispatch :
        (x : Campaign) (s : Store) (r : Result Bool) (t : Store)
        → IsBatched c x s
        → IsBatched c x t
        → (says_no r ≡ true → t ≡ s)
        → (acted : Bool) → r ≡ ok acted
        → HasBatches c
            ((if acted
                then get_detail p c
                else complete p now ids c again
                    (detail_of c x s)
                    (keep_rows (in_batch x.current_batch) (list_members c s)))
              t).1
    after_dispatch x s r t v w same_store true e = Orders-get_detail.at t (x, w)
    after_dispatch x s r t v w same_store false e =
        rw (same_store (rw e refl)) (Orders-complete x s v)

    Orders-dispatch :
        (x : Campaign) (s : Store) (o : Option MemberView)
        → IsBatched c x s
        → is_complete x.status ≡ false
        → HasBatches c
            (dispatch p now ids c again
              (detail_of c x s)
              (keep_rows (in_batch x.current_batch) (list_members c s))
              o
              s).1
    unfolding dispatch
    Orders-dispatch x s (some f) v u =
        then-HasBatches _ _ s
          (update_campaign-IsBatched p now c x s paused x.current_batch _ v refl
            λ y node m st b h o. same-InOrder x y m b (rw st refl) o)
          Orders-get_detail
    Orders-dispatch x s none v u =
        let current = keep_rows (in_batch x.current_batch) (list_members c s) in
        let after =
          (Keeps-dispatch_all x (detail_of c x s) current u
              (All-keep_rows _ _ _ (All-true _ _ (λ w h. h)))).at
            s (keep_rows-IsSnapshot c _ _ s (list_members-IsSnapshot c x s v)) v in
        next-HasBatches _ _ s (x, after)
          λ acted e.
            after_dispatch x s _ _ v after
              ((IsUnmoved-dispatch_all p now ids c (detail_of c x s) current).at s) acted e

    pub Orders-run_batch :
        (x : Campaign) (s : Store) (vs : List MemberView)
        → IsBatched c x s
        → is_complete x.status ≡ false
        → keep_rows (in_batch x.current_batch) (list_members c s) ≡ vs
        → HasBatches c (run_batch p now ids c again (detail_of c x s) vs s).1
    unfolding run_batch throw
    Orders-run_batch x s [] v u e = (x, v)
    Orders-run_batch x s (w ∷ ws) v u e = rw (sym e) (Orders-dispatch x s _ v u)
