-- ===== src/Campaign/Batches.antt =====
-- The order of the batches as an invariant of the rows of one campaign.
use box_fleet.Base.{
  ◌≤◌, ◌≡◌, refl, Text, same, same_iff, Bool, true, false, none, some, List, arith, find_row,
  update_rows, count_rows, Bool-cases, inl, inr, sym, find_row-update_rows,
  find_row-update_rows_other, find_row-update_rows_apart, count_rows-update_rows-le, All,
  All-update_rows,
}
use box_fleet.Database.{
  CampaignStatus, MemberStatus, queued, succeeded, pending, skipped, Campaign, Member, Node, Store,
}
use box_fleet.Campaign.Sql.{by_member, is_campaign, is_settled, same_batch}
use box_fleet.Campaign.Reconcile.{beyond}

abbrev pub is_idle : MemberStatus → Bool
is_idle pending = true
is_idle skipped = true
is_idle _ = false

abbrev pub is_unstarted : CampaignStatus → Bool
is_unstarted queued = true
is_unstarted _ = false

abbrev pub is_complete : CampaignStatus → Bool
is_complete succeeded = true
is_complete _ = false

-- Before the current batch all is done, after it nothing has begun, and in a campaign that
-- succeeded all is done.
pub record InOrder (x : Campaign) (m : Member) : Type 0 where
  pub behind :
      beyond x.current_batch m.batch_number ≡ false
      → same_batch x.current_batch m.batch_number ≡ false
      → is_settled m.status ≡ true
  pub ahead :
      beyond x.current_batch m.batch_number ≡ true
      → (is_idle m.status ≡ true) × (m.operation_id ≡ none)
  pub finished : is_complete x.status ≡ true → is_settled m.status ≡ true

-- The node of each member is in the table of nodes: the foreign key.
abbrev pub HasNode : List Node → Member → Type 0
HasNode nodes m = (n : Node) × (find_row (λ (n : Node). same n.id m.node_id) nodes ≡ some n)

-- The campaign `c` has the row `x`, at most one member for each node, and its members in order.
pub record IsBatched (c : Text) (x : Campaign) (s : Store) : Type 0 where
  pub found : find_row (is_campaign c) s.campaigns ≡ some x
  pub keyed : (node : Text) → count_rows (by_member c node) s.members ≤ 1
  pub in_order :
      (node : Text) (m : Member) → find_row (by_member c node) s.members ≡ some m → InOrder x m
  pub unstarted : is_unstarted x.status ≡ true → x.current_batch ≡ none
  pub linked : All (HasNode s.nodes) s.members

-- An UPDATE that keeps the key of each member.
pub record KeepsKey (f : Member → Member) : Type 0 where
  pub campaign_id : (m : Member) → (f m).campaign_id ≡ m.campaign_id
  pub node_id : (m : Member) → (f m).node_id ≡ m.node_id

by_member-keeps :
    (f : Member → Member)
    → KeepsKey f
    → (c node : Text) (m : Member) → by_member c node (f m) ≡ by_member c node m
unfolding by_member
by_member-keeps f k c node m = rw (k.campaign_id m, k.node_id m) refl

by_member-apart :
    (c a b : Text) (m : Member)
    → same a b ≡ false
    → by_member c a m ≡ true
    → by_member c b m ≡ false
unfolding by_member
by_member-apart c a b m d h =
    ground (arith, same_iff m.node_id a, same_iff m.node_id b, same_iff a b)

module _ (c node : Text) (q : Member → Bool) (f : Member → Member) (k : KeepsKey f)
    (only : (m : Member) → q m ≡ true → by_member c node m ≡ true) where
  -- The members of other nodes stay.
  pub update-others :
      (other : Text) (rows : List Member)
      → same node other ≡ false
      → find_row (by_member c other) (update_rows q f rows) ≡ find_row (by_member c other) rows
  update-others other rows d = find_row-update_rows_apart (by_member c other) q f rows (λ m h.
      let apart = by_member-apart c node other m d (only m h) in
      (apart, rw (by_member-keeps f k c other m) apart))

  update-own :
      (x : Campaign) (rows : List Member) (r m : Member)
      → find_row (by_member c node) rows ≡ some r
      → InOrder x r
      → (q r ≡ true → InOrder x (f r))
      → find_row (by_member c node) (update_rows q f rows) ≡ some m
      → InOrder x m
  update-own x rows r m h v w e = elim (Bool-cases (q r)) [
    | inl hit ↦
        let there =
          find_row-update_rows (by_member c node) q f rows r (λ y _. by_member-keeps f k c node y) h
            hit in
        let same_row : f r ≡ m = ground arith in rw (sym same_row) (w hit)
    | inr miss ↦
        let there =
          find_row-update_rows_other (by_member c node) q f rows r
            (λ y _. by_member-keeps f k c node y) h miss in
        let same_row : r ≡ m = ground arith in rw (sym same_row) v
  ]

  -- An UPDATE of one member, whose new row is in order again.
  pub update-IsBatched :
      (x : Campaign) (s : Store) (r : Member)
      → find_row (by_member c node) s.members ≡ some r
      → (q r ≡ true → InOrder x r → InOrder x (f r))
      → IsBatched c x s
      → IsBatched c x (record s { members = update_rows q f s.members })
  update-IsBatched x s r h w v = record {
    found = v.found;
    keyed = λ n. omega (
      arith,
      v.keyed n,
      count_rows-update_rows-le (by_member c n) q f s.members
          (λ m _ e. rw (by_member-keeps f k c n m) at e),
    );
    in_order = λ n m e. elim (Bool-cases (same node n)) [
      | inl own ↦
          update-own x s.members r m h (v.in_order node r h) (λ hit. w hit (v.in_order node r h))
            (rw (own_node n own) e)
      | inr other ↦ v.in_order n m (rw (update-others n s.members other) at e)
    ];
    unstarted = v.unstarted;
    linked = All-update_rows (HasNode s.nodes) q f s.members (λ m h. rw (k.node_id m) h) v.linked;
  }
    where
      own_node : (n : Text) → same node n ≡ true → node ≡ n
      own_node n e = ground (arith, same_iff node n)
