-- ===== src/Campaign/Safe.antt =====
-- The calls on campaigns keep every invariant of the operation tables.
use box_fleet.Base.{
  ℕ, ◌≡◌, refl, Text, Bool, true, false, Option, List, [], ◌∷◌, if◌then◌else◌, any_row, not, ◌&&◌,
  Bool-cases, inl, inr,
}
use box_fleet.Platform.{Platform}
use box_fleet.Database.{
  CampaignStatus, MemberStatus, Campaign, Member, Node, Store, Failure, no_rows, Result, ok, err, M,
  ◌>>=◌, return, throw, guard, or_fail, attempt,
}
use box_fleet.Operation.Calls.{OperationView, CreateParams, get_node}
use box_fleet.Operation.Methods.{create_operation, cancel_unclaimed}
use box_fleet.Operation.Steps.{Changes}
use box_fleet.Operation.Steps.Rules.{Writes, chain}
use box_fleet.Operation.Steps.Writes.{
  Writes-view, Writes-create_operation, Writes-request_cancel, Writes-cancel_unclaimed,
}
use box_fleet.Campaign.Sql.{MemberView, update_member, update_campaign, assign, holds, get_detail}
use box_fleet.Campaign.Sync.{
  for_each, get_operation, skip_member, take_status, after_cancel, sync_operation, abandon,
  sync_found, sync_member,
}
use box_fleet.Campaign.Admin.{cancel_member}

-- What the writes on operations keep, and the campaign tables are no part of.
pub record IsKept (now : Text) (I : Store → Type 0) : Type 0 where
  pub changes : (s t : Store) → Changes now s t → I s → I t
  pub campaigns : (s : Store) (xs : List Campaign) → I s → I (record s { campaigns = xs })
  pub members : (s : Store) (ms : List Member) → I s → I (record s { members = ms })

pub record IsSafe (I : Store → Type 0) {A : Type 0} (m : M A) : Type 0 where
  pub at : (s : Store) → I s → I (m s).1

module _ {I : Store → Type 0} where
  pub IsSafe-if :
      {A : Type 0} (b : Bool) (m n : M A) → IsSafe I m → IsSafe I n → IsSafe I (if b then m else n)
  IsSafe-if true m n h k = h
  IsSafe-if false m n h k = k

  bind-safe :
      {A B : Type 0} (m : M A) (f : A → M B) (s : Store) (r : Result A) (t : Store)
      → m s ≡ (r, t)
      → I t
      → ((a : A) → IsSafe I (f a))
      → I ((m >>= f) s).1
  unfolding ◌>>=◌
  bind-safe m f s (ok a) t e h w = rw e ((w a).at t h)
  bind-safe m f s (err z) t e h w = rw e h

  pub IsSafe-bind :
      {A B : Type 0} (m : M A) (f : A → M B)
      → IsSafe I m
      → ((a : A) → IsSafe I (f a))
      → IsSafe I (m >>= f)
  IsSafe-bind m f h w = record { at = λ s i. bind-safe m f s (m s).0 (m s).1 refl (h.at s i) w }

  pub IsSafe-attempt : {A : Type 0} (m : M A) → IsSafe I m → IsSafe I (attempt m)
  unfolding attempt
  IsSafe-attempt m h = record { at = h.at }

  pub IsSafe-for_each :
      {A : Type 0} (f : A → M (Unit {0})) (xs : List A)
      → ((a : A) → IsSafe I (f a))
      → IsSafe I (for_each f xs)
  unfolding for_each return
  IsSafe-for_each f [] w = record { at = λ s h. h }
  IsSafe-for_each f (x ∷ xs) w = IsSafe-bind _ _ (w x) (λ _. IsSafe-for_each f xs w)

module _ (p : Platform) (now : ℕ) (I : Store → Type 0) (kept : IsKept (p.sql_time now) I) where
  IsSafe-Writes : {A : Type 0} (m : M A) → Writes (p.sql_time now) m → IsSafe I m
  IsSafe-Writes m w = record { at = λ s h. kept.changes s _ (w.at s) h }

  pub IsSafe-return : {A : Type 0} (a : A) → IsSafe I (return a)
  IsSafe-return a = IsSafe-Writes _ (search chain)

  pub IsSafe-throw : {A : Type 0} (e : Failure) → IsSafe I (throw {A = A} e)
  IsSafe-throw e = IsSafe-Writes _ (search chain)

  pub IsSafe-guard : (b : Bool) (e : Failure) → IsSafe I (guard b e)
  IsSafe-guard b e = IsSafe-Writes _ (search chain)

  pub IsSafe-or_fail : {A : Type 0} (o : Option A) (e : Failure) → IsSafe I (or_fail o e)
  IsSafe-or_fail o e = IsSafe-Writes _ (search chain)

  pub IsSafe-get_node : (i : Text) → IsSafe I (get_node i)
  IsSafe-get_node i = IsSafe-Writes _ (search chain)

  pub IsSafe-get_detail : (i : Text) → IsSafe I (get_detail p i)
  unfolding get_detail
  IsSafe-get_detail i = IsSafe-Writes _ (search chain depth 9)

  pub IsSafe-get_operation : (c i : Text) → IsSafe I (get_operation p now c i)
  unfolding get_operation
  IsSafe-get_operation c i = IsSafe-Writes _ (search (chain, Writes-view) depth 9)

  pub IsSafe-cancel_unclaimed : (i : Text) → IsSafe I (cancel_unclaimed p now i)
  IsSafe-cancel_unclaimed i = IsSafe-Writes _ (Writes-cancel_unclaimed p now i)

  pub IsSafe-create_operation :
      (i : Text) (q : CreateParams) → IsSafe I (create_operation p now i q)
  IsSafe-create_operation i q = IsSafe-Writes _ (Writes-create_operation p now i q)

  pub IsSafe-abandon : (c : Text) (v : MemberView) → IsSafe I (abandon p now c v)
  unfolding abandon
  IsSafe-abandon c v = IsSafe-Writes _ (search (chain, Writes-request_cancel) depth 9)

  pub IsSafe-cancel_member : (v : MemberView) → IsSafe I (cancel_member p now v)
  unfolding cancel_member
  IsSafe-cancel_member v = IsSafe-Writes _ (search (chain, Writes-request_cancel) depth 9)

  pub IsSafe-update_member :
      (c i : Text) (st : MemberStatus) (e : Text) → IsSafe I (update_member p now c i st e)
  unfolding update_member
  IsSafe-update_member c i st e = record { at = λ s h. kept.members s _ h }

  pub IsSafe-update_campaign :
      (c : Text) (st : CampaignStatus) (b : Option ℕ) (e : Text)
      → IsSafe I (update_campaign p now c st b e)
  unfolding update_campaign
  IsSafe-update_campaign c st b e = record { at = λ s h. kept.campaigns s _ h }

  pub IsSafe-assign : (q : Member → Bool) (i : Text) (f : Member → Member) → IsSafe I (assign q i f)
  unfolding assign
  IsSafe-assign q i f = record {
    at = λ s h.
        elim (Bool-cases (any_row q s.members && any_row (λ m. not (q m) && holds i m) s.members)) [
          | inl taken ↦ rw taken h
          | inr free ↦ rw free (kept.members s _ h)
        ];
  }

  pub IsSafe-skip_member :
      (c : Text) (v : MemberView) (e : Text) → IsSafe I (skip_member p now c v e)
  unfolding skip_member
  IsSafe-skip_member c v e = IsSafe-update_member _ _ _ _

  pub IsSafe-take_status :
      (c : Text) (v : MemberView) (op : OperationView) → IsSafe I (take_status p now c v op)
  unfolding take_status
  IsSafe-take_status c v op =
      search (IsSafe-if, IsSafe-skip_member, IsSafe-update_member, IsSafe-return)

  pub IsSafe-sync_operation : (c : Text) (v : MemberView) → IsSafe I (sync_operation p now c v)
  unfolding sync_operation after_cancel
  IsSafe-sync_operation c v = IsSafe-bind _ _ (IsSafe-get_operation c _) λ op.
      IsSafe-if _ _ _
        (IsSafe-bind _ _ (IsSafe-cancel_unclaimed _)
          λ later. search (IsSafe-if, IsSafe-skip_member, IsSafe-take_status))
        (IsSafe-take_status c v op)

  pub IsSafe-sync_found :
      (c : Text) (v : MemberView) (r : Result Node) → IsSafe I (sync_found p now c v r)
  unfolding sync_found
  IsSafe-sync_found c v (err no_rows) =
      IsSafe-bind _ _ (IsSafe-abandon c v) (λ _. IsSafe-skip_member c v _)
  IsSafe-sync_found c v (err _) = IsSafe-throw _
  IsSafe-sync_found c v (ok n) = search (IsSafe-if, IsSafe-return, IsSafe-sync_operation)

  pub IsSafe-sync_member : (c : Text) (v : MemberView) → IsSafe I (sync_member p now c v)
  unfolding sync_member
  IsSafe-sync_member c v =
      search
        (IsSafe-if, IsSafe-return, IsSafe-bind, IsSafe-attempt, IsSafe-get_node, IsSafe-sync_found)
