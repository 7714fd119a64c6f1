-- ===== src/Campaign/Members.antt =====
-- The visits that a reconciliation makes: the sync of a member, and its dispatch.
use box_fleet.Base.{ℕ, ◌≡◌, refl, Text, Bool, true, false, Option, none, some, arith}
use box_fleet.Platform.{Platform}
use box_fleet.Database.{
  MemberStatus, Status, Campaign, Member, Node, skipped, Result, ok, err, no_rows, active_operation,
  M, ◌>>◌, return,
}
use box_fleet.Operation.Validate.{is_empty}
use box_fleet.Operation.Calls.{OperationView, text_of}
use box_fleet.Operation.Steps.Rules.{Writes, chain, Writes-return, Writes-attempt}
use box_fleet.Operation.Steps.Writes.{
  Writes-view, Writes-create_operation, Writes-request_cancel, Writes-cancel_unclaimed,
}
use box_fleet.Campaign.Sql.{
  MemberView, Detail, is_settled, same_batch, update_member, member_set, attach_operation,
  attach_where, attach_set,
}
use box_fleet.Campaign.Sync.{
  get_operation, skip_member, take_status, after_cancel, sync_operation, abandon, sync_found,
  sync_member,
}
use box_fleet.Campaign.Reconcile.{beyond, attach_created, dispatch_to, dispatch_member}
use box_fleet.Campaign.Batches.{is_idle, InOrder, KeepsKey, is_complete}
use box_fleet.Campaign.Visits.{
  Visits, Visits-if, Visits-Writes, Visits-bind, Visits-then, Visits-write_members, Visits-assign,
}

member_set-KeepsKey :
    (now : Text) (st : MemberStatus) (e : Text) (t : Option Text) → KeepsKey (member_set now st e t)
unfolding member_set
member_set-KeepsKey now st e t = record { campaign_id = λ m. refl; node_id = λ m. refl }

attach_set-KeepsKey :
    (now : Text) (i : Option Text) (st : MemberStatus) → KeepsKey (attach_set now i st)
unfolding attach_set
attach_set-KeepsKey now i st = record { campaign_id = λ m. refl; node_id = λ m. refl }

module _ (p : Platform) (now : ℕ) (c : Text) (x : Campaign)
    (unfinished : is_complete x.status ≡ false) (v : MemberView) where
  abbrev Here : {A : Type 0} → M A → Type 0
  Here m = Visits c x v m

  at_rest : {A : Type 0} (m : M A) → Writes (p.sql_time now) m → Here m
  at_rest m w = Visits-Writes m w

  -- An UPDATE of the state of the member.
  Visits-update_member :
      (st : MemberStatus) (e : Text)
      → ((t : Option Text) → InOrder x v.row → InOrder x (member_set (p.sql_time now) st e t v.row))
      → Here (update_member p now c v.row.node_id st e)
  unfolding update_member
  Visits-update_member st e w =
      Visits-write_members v _ _ (member_set-KeepsKey _ _ _ _) (λ m h. h) (λ h. w _)

  Visits-skip_member : (e : Text) → Here (skip_member p now c v e)
  unfolding skip_member member_set
  Visits-skip_member e = Visits-update_member skipped e λ t o. record {
    behind = λ a b. refl;
    ahead = λ a. (refl, (o.ahead a).1);
    finished = λ a. refl;
  }

  -- A member that has an operation, and is not settled, is in the current batch.
  under_way-InOrder :
      (m : Member)
      → is_settled v.row.status ≡ false
      → is_empty (text_of v.row.operation_id) ≡ false
      → m.batch_number ≡ v.row.batch_number
      → InOrder x v.row
      → InOrder x m
  under_way-InOrder m u held e o = record {
    behind = λ a b. ground (arith, o.behind (rw e at a) (rw e at b));
    ahead = λ a. ground (arith, o.ahead (rw e at a));
    finished = λ a. ground arith;
  }

  Visits-take_status :
      (op : OperationView)
      → is_settled v.row.status ≡ false
      → is_empty (text_of v.row.operation_id) ≡ false
      → Here (take_status p now c v op)
  unfolding take_status member_set
  Visits-take_status op u held =
      search
        (Visits-if, Visits-skip_member, Visits-update_member, under_way-InOrder, at_rest, chain)
        depth 9

  Visits-after_cancel :
      (op : OperationView)
      → is_settled v.row.status ≡ false
      → is_empty (text_of v.row.operation_id) ≡ false
      → Here (after_cancel p now c v op)
  unfolding after_cancel
  Visits-after_cancel op u held = search (Visits-if, Visits-skip_member, Visits-take_status) depth 9

  Writes-get_operation : (i : Text) → Writes (p.sql_time now) (get_operation p now c i)
  unfolding get_operation
  Writes-get_operation i = search (chain, Writes-view) depth 9

  Visits-sync_operation :
      is_settled v.row.status ≡ false
      → is_empty (text_of v.row.operation_id) ≡ false
      → Here (sync_operation p now c v)
  unfolding sync_operation
  Visits-sync_operation u held =
      Visits-bind {now = p.sql_time now} _ _ (Writes-get_operation _) λ op.
        search
          (
            Visits-if,
            Visits-bind {now = p.sql_time now},
            Writes-cancel_unclaimed,
            Visits-after_cancel,
            Visits-take_status,
          )
          depth 9

  Writes-abandon : Writes (p.sql_time now) (abandon p now c v)
  unfolding abandon
  Writes-abandon = search (chain, Writes-request_cancel) depth 9

  Visits-sync_found :
      (r : Result Node) → is_settled v.row.status ≡ false → Here (sync_found p now c v r)
  unfolding sync_found
  Visits-sync_found (err no_rows) u = Visits-bind _ _ Writes-abandon (λ _. Visits-skip_member _)
  Visits-sync_found (err _) u = at_rest _ (search chain)
  Visits-sync_found (ok n) u = search (Visits-if, at_rest, chain, Visits-sync_operation) depth 9

  pub Visits-sync_member : Here (sync_member p now c v)
  unfolding sync_member
  Visits-sync_member =
      search (Visits-if, at_rest, chain, Visits-bind {now = p.sql_time now}, Visits-sync_found)
        depth 9

  -- A member of the current batch may take any state.
  pub current-InOrder :
      (m : Member)
      → same_batch x.current_batch v.row.batch_number ≡ true
      → m.batch_number ≡ v.row.batch_number
      → InOrder x m
  current-InOrder m b e = record {
    behind = λ h k. ground (arith, rw e at k);
    ahead = λ h. current_ahead x.current_batch m h (rw e b);
    finished = λ h. ground arith;
  }
    where
      current_ahead :
          (current : Option ℕ) (m : Member)
          → beyond current m.batch_number ≡ true
          → same_batch current m.batch_number ≡ true
          → (is_idle m.status ≡ true) × (m.operation_id ≡ none)
      current_ahead none m h k = ground arith
      current_ahead (some a) m h k = ground arith

  module _ (ids : Text → Text) (d : Detail)
      (current : same_batch x.current_batch v.row.batch_number ≡ true) where
    Visits-attach_operation :
        (i : Text) (status : Status) → Here (attach_operation p now c v.row.node_id i status)
    unfolding attach_operation attach_where attach_set
    Visits-attach_operation i status = Visits-bind {now = p.sql_time now} _ _ (search chain) λ st.
        Visits-assign v _ _ (attach_set-KeepsKey _ _ _) (λ m h. ground arith)
          (λ h o. current-InOrder _ current refl) i

    Visits-attach_created :
        (r : Result (OperationView × Bool)) → Here (attach_created p now ids c v r)
    unfolding attach_created
    Visits-attach_created (err active_operation) = at_rest _ (search chain)
    Visits-attach_created (err _) = at_rest _ (search chain)
    Visits-attach_created (ok (op, created)) =
        Visits-then _ _ (Visits-attach_operation op.id op.status)
          (λ _. Writes-return {now = p.sql_time now} true)

    skip_true : (e : Text) → Here (skip_member p now c v e >> return true)
    skip_true e =
        Visits-then _ _ (Visits-skip_member e) (λ _. Writes-return {now = p.sql_time now} true)

    Visits-dispatch_to : (r : Result Node) → Here (dispatch_to p now ids c d v r)
    unfolding dispatch_to
    Visits-dispatch_to (err no_rows) = skip_true _
    Visits-dispatch_to (err _) = at_rest _ (search chain)
    Visits-dispatch_to (ok n) =
        search
          (
            Visits-if,
            skip_true,
            Visits-bind {now = p.sql_time now},
            Writes-create_operation,
            Writes-attempt,
            Visits-attach_created,
          )
          depth 9

    pub Visits-dispatch_member : Here (dispatch_member p now ids c d v)
    unfolding dispatch_member
    Visits-dispatch_member =
        search
          (
            Visits-if,
            skip_true,
            at_rest,
            Visits-bind {now = p.sql_time now},
            chain,
            Visits-dispatch_to,
          )
          depth 9
