-- ===== src/Campaign/Ordered.antt =====
-- A reconciliation keeps the batches of its campaign in order.
use box_fleet.Base.{
  ℕ, ◌≡◌, refl, Text, same, same_iff, true, false, ◌&&◌, Option, none, some, arith, ltb, ◌==◌,
  Bool-cases, Option-cases, inl, inr, ◌⊎◌, find_row-holds, trim_space,
}
use box_fleet.Platform.{Platform}
use box_fleet.Database.{
  Campaign, Member, Store, Failure, refused, corrupt_row, Result, ok, err, M, ◌>>=◌,
}
use box_fleet.Campaign.Sql.{
  is_campaign, Detail, is_settled, is_pending, same_batch, list_members, get_detail,
}
use box_fleet.Campaign.Reconcile.{beyond}
use box_fleet.Campaign.Batches.{InOrder, IsBatched, is_complete, is_idle}
use box_fleet.Campaign.Progress.{HasBatches}

pub own_id : (c : Text) (x : Campaign) (s : Store) → IsBatched c x s → x.id ≡ c
unfolding is_campaign
own_id c x s v =
    ground (arith, same_iff x.id c, find_row-holds (is_campaign c) s.campaigns x v.found)

-- What a reading of the campaign gives.
abbrev pub detail_of : Text → Campaign → Store → Detail
detail_of c x s = record { campaign = x; members = list_members c s }

module _ (p : Platform) (c : Text) (trimmed : trim_space c ≡ c) where
  -- Either the reading fails and nothing changes, or it gives the rows of the tables.
  pub get_detail-cases :
      (x : Campaign) (s : Store)
      → IsBatched c x s
      → (get_detail p c s ≡ (ok (detail_of c x s), s))
        ⊎ ((e : Failure) × (get_detail p c s ≡ (err e, s)))
  unfolding get_detail is_campaign ◌>>=◌
  get_detail-cases x s v = elim (Option-cases (p.decode_list x.components_json)) [
    | inl e ↦ inr (refused corrupt_row, rw (trimmed, v.found, e) refl)
    | inr (cs, e) ↦ inl (
        rw (trimmed, v.found, e, own x.id (find_row-holds (is_campaign c) s.campaigns x v.found))
          refl)
  ]
    where
      own : (i : Text) → same i c ≡ true → i ≡ c
      own i h = ground (arith, same_iff i c)

  pub read-HasBatches :
      {B : Type 0} (f : Detail → M B) (x : Campaign) (s : Store)
      → IsBatched c x s
      → HasBatches c (f (detail_of c x s) s).1
      → HasBatches c ((get_detail p c >>= f) s).1
  unfolding ◌>>=◌
  read-HasBatches f x s v h = elim (get_detail-cases x s v) [
    | inl e ↦ rw e h
    | inr (z, e) ↦ rw e (x, v)
  ]

  pub get_detail-HasBatches :
      (x : Campaign) (s : Store) → IsBatched c x s → HasBatches c (get_detail p c s).1
  get_detail-HasBatches x s v = elim (get_detail-cases x s v) [
    | inl e ↦ rw e (x, v)
    | inr (z, e) ↦ rw e (x, v)
  ]

-- A method that keeps the batches in order.
pub record Orders (c : Text) {A : Type 0} (m : M A) : Type 0 where
  pub at : (s : Store) → HasBatches c s → HasBatches c (m s).1

module _ {c : Text} where
  bind-HasBatches :
      {A B : Type 0} (m : M A) (f : A → M B) (s : Store) (r : Result A) (t : Store)
      → m s ≡ (r, t)
      → HasBatches c t
      → ((a : A) → r ≡ ok a → HasBatches c (f a t).1)
      → HasBatches c ((m >>= f) s).1
  unfolding ◌>>=◌
  bind-HasBatches m f s (ok a) t e h w = rw e (w a refl)
  bind-HasBatches m f s (err z) t e h w = rw e h

  pub next-HasBatches :
      {A B : Type 0} (m : M A) (f : A → M B) (s : Store)
      → HasBatches c (m s).1
      → ((a : A) → (m s).0 ≡ ok a → HasBatches c (f a (m s).1).1)
      → HasBatches c ((m >>= f) s).1
  next-HasBatches m f s h w = bind-HasBatches m f s (m s).0 (m s).1 refl h w

-- The order after the current batch was done.
pub next-InOrder :
    (x y : Campaign) (b : ℕ) (m : Member)
    → (same_batch x.current_batch m.batch_number ≡ true → is_settled m.status ≡ true)
    → ((is_pending m.status && beyond x.current_batch m.batch_number && ltb m.batch_number b)
        ≡ false)
    → beyond x.current_batch b ≡ true
    → y.current_batch ≡ some b
    → is_complete y.status ≡ false
    → InOrder x m
    → InOrder y m
next-InOrder x y b m settled least after e u o = record {
  behind =
      λ h k. settled_behind x.current_batch (rw e at h) (rw e at k) settled least o.behind o.ahead;
  ahead = λ h. o.ahead (beyond_trans x.current_batch after (rw e at h));
  finished = λ h. cc;
}
  where
    beyond_trans :
        (a : Option ℕ)
        → beyond a b ≡ true
        → ltb b m.batch_number ≡ true
        → beyond a m.batch_number ≡ true
    beyond_trans none h k = refl
    beyond_trans (some a) h k = ground arith

    settled_behind :
        (a : Option ℕ)
        → ltb b m.batch_number ≡ false
        → (b == m.batch_number) ≡ false
        → (same_batch a m.batch_number ≡ true → is_settled m.status ≡ true)
        → ((is_pending m.status && beyond a m.batch_number && ltb m.batch_number b) ≡ false)
        → (beyond a m.batch_number ≡ false
            → same_batch a m.batch_number ≡ false
            → is_settled m.status ≡ true)
        → (beyond a m.batch_number ≡ true → (is_idle m.status ≡ true) × (m.operation_id ≡ none))
        → is_settled m.status ≡ true
    settled_behind a h k s l f g = elim (Bool-cases (beyond a m.batch_number)) [
      | inl far ↦ ground (arith, (g far).0)
      | inr near ↦ elim (Bool-cases (same_batch a m.batch_number)) [
        | inl here ↦ s here
        | inr before ↦ f near before
      ]
    ]

-- The order after all was done.
pub last-InOrder :
    (x y : Campaign) (m : Member)
    → (same_batch x.current_batch m.batch_number ≡ true → is_settled m.status ≡ true)
    → ((is_pending m.status && beyond x.current_batch m.batch_number) ≡ false)
    → y.current_batch ≡ x.current_batch
    → InOrder x m
    → InOrder y m
last-InOrder x y m settled none_left e o = record {
  behind = λ h k. o.behind (rw e at h) (rw e at k);
  ahead = λ h. o.ahead (rw e at h);
  finished = λ h. elim (Bool-cases (beyond x.current_batch m.batch_number)) [
    | inl far ↦ ground (arith, (o.ahead far).0)
    | inr near ↦ elim (Bool-cases (same_batch x.current_batch m.batch_number)) [
      | inl here ↦ settled here
      | inr before ↦ o.behind near before
    ]
  ];
}

-- The same batch, and not complete.
pub same-InOrder :
    (x y : Campaign) (m : Member)
    → y.current_batch ≡ x.current_batch
    → is_complete y.status ≡ false
    → InOrder x m
    → InOrder y m
same-InOrder x y m e u o = record {
  behind = λ h k. o.behind (rw e at h) (rw e at k);
  ahead = λ h. o.ahead (rw e at h);
  finished = λ h. cc;
}

-- The first batch of a campaign that has none.
pub first-InOrder :
    (x y : Campaign) (m : Member)
    → x.current_batch ≡ none
    → y.current_batch ≡ some 0
    → is_complete y.status ≡ false
    → InOrder x m
    → InOrder y m
first-InOrder x y m n e u o = record {
  behind = λ h k. ground (arith, rw e at h, rw e at k);
  ahead = λ h. o.ahead (rw n refl);
  finished = λ h. cc;
}
