-- ===== src/Campaign/Visits.antt =====
-- A visit to one member: a chain of calls that leave the campaign tables alone, and at most one UPDATE
-- of the member's row.
use box_fleet.Base.{
  ◌≡◌, refl, ◌∙◌, Text, same, Bool, true, false, find_row, if◌then◌else◌, Bool-cases, inl, inr,
  any_row, not, ◌&&◌,
}
use box_fleet.Database.{Campaign, Member, Store, ok, err, Result, M, ◌>>=◌}
use box_fleet.Operation.Steps.{Change, insert, update, log, Changes, nothing, also}
use box_fleet.Operation.Steps.Rules.{Writes}
use box_fleet.Campaign.Sql.{by_member, MemberView, write_members, assign, holds}
use box_fleet.Campaign.Batches.{InOrder, IsBatched, KeepsKey, update-IsBatched, update-others}
use box_fleet.Campaign.Snapshot.{Stands}

-- The campaign tables are the same.
pub record SameTables (s t : Store) : Type 0 where
  pub campaigns : t.campaigns ≡ s.campaigns
  pub members : t.members ≡ s.members
  pub nodes : t.nodes ≡ s.nodes

Change-SameTables : {now : Text} {s t u : Store} → Change now t u → SameTables s t → SameTables s u
Change-SameTables (insert new q free e) v =
    rw e (record { campaigns = v.campaigns; members = v.members; nodes = v.nodes })
Change-SameTables (update u e) v =
    rw e (record { campaigns = v.campaigns; members = v.members; nodes = v.nodes })
Change-SameTables (log x q e) v =
    rw e (record { campaigns = v.campaigns; members = v.members; nodes = v.nodes })

pub Changes-SameTables : {now : Text} {s t : Store} → Changes now s t → SameTables s t
Changes-SameTables nothing = record { campaigns = refl; members = refl; nodes = refl }
Changes-SameTables (also cs c) = Change-SameTables c (Changes-SameTables cs)

module _ {c : Text} {x : Campaign} where
  pub SameTables-IsBatched : (s t : Store) → SameTables s t → IsBatched c x s → IsBatched c x t
  SameTables-IsBatched s t e v = record {
    found = rw (e.campaigns) (v.found);
    keyed = λ n. rw (e.members) (v.keyed n);
    in_order = λ n m h. v.in_order n m (rw (e.members) at h);
    unstarted = v.unstarted;
    linked = rw (e.members, e.nodes) (v.linked);
  }

-- The rows of the other members stay.
abbrev pub OthersStay : Text → MemberView → Store → Store → Type 0
OthersStay c v s t =
    (other : Text)
    → same v.row.node_id other ≡ false
    → find_row (by_member c other) t.members ≡ find_row (by_member c other) s.members

pub record Visits (c : Text) (x : Campaign) (v : MemberView) {A : Type 0} (m : M A) : Type 0 where
  pub batched : (s : Store) → Stands c s v → IsBatched c x s → IsBatched c x (m s).1
  pub others : (s : Store) → OthersStay c v s (m s).1

module _ {c : Text} {x : Campaign} {v : MemberView} where
  bind-IsBatched :
      {A B : Type 0} (m : M A) (f : A → M B) (s : Store) (r : Result A) (t : Store)
      → m s ≡ (r, t)
      → SameTables s t
      → ((a : A) → Visits c x v (f a))
      → Stands c s v
      → IsBatched c x s
      → IsBatched c x ((m >>= f) s).1
  unfolding ◌>>=◌
  bind-IsBatched m f s (ok a) t e k w h b =
      rw e ((w a).batched t (rw (k.members) h) (SameTables-IsBatched s t k b))
  bind-IsBatched m f s (err z) t e k w h b = rw e (SameTables-IsBatched s t k b)

module _ {c : Text} {v : MemberView} where
  bind-others :
      {x : Campaign} {A B : Type 0} (m : M A) (f : A → M B) (s : Store) (r : Result A) (t : Store)
      → m s ≡ (r, t)
      → SameTables s t
      → ((a : A) → Visits c x v (f a))
      → OthersStay c v s ((m >>= f) s).1
  unfolding ◌>>=◌
  bind-others m f s (ok a) t e k w other d = rw e ((w a).others t other d ∙ rw (k.members) refl)
  bind-others m f s (err z) t e k w other d = rw (e, k.members) refl

module _ {now c : Text} {x : Campaign} where
  then-IsBatched :
      {A B : Type 0} (m : M A) (f : A → M B) (s : Store) (r : Result A) (t : Store)
      → m s ≡ (r, t)
      → IsBatched c x t
      → ((a : A) → Writes now (f a))
      → IsBatched c x ((m >>= f) s).1
  unfolding ◌>>=◌
  then-IsBatched m f s (ok a) t e b w =
      rw e (SameTables-IsBatched t _ (Changes-SameTables ((w a).at t)) b)
  then-IsBatched m f s (err z) t e b w = rw e b

module _ {now : Text} (c : Text) (v : MemberView) where
  then-others :
      {A B : Type 0} (m : M A) (f : A → M B) (s : Store) (r : Result A) (t : Store)
      → m s ≡ (r, t)
      → OthersStay c v s t
      → ((a : A) → Writes now (f a))
      → OthersStay c v s ((m >>= f) s).1
  unfolding ◌>>=◌
  then-others m f s (ok a) t e o w other d =
      rw e (rw ((Changes-SameTables ((w a).at t)).members) (o other d))
  then-others m f s (err z) t e o w other d = rw e (o other d)

module _ {c : Text} {x : Campaign} {v : MemberView} where
  pub Visits-if :
      {A : Type 0} (b : Bool) (m n : M A)
      → (b ≡ true → Visits c x v m)
      → (b ≡ false → Visits c x v n)
      → Visits c x v (if b then m else n)
  Visits-if true m n vm vn = vm refl
  Visits-if false m n vm vn = vn refl

module _ {now c : Text} {x : Campaign} {v : MemberView} where
  pub Visits-Writes : {A : Type 0} (m : M A) → Writes now m → Visits c x v m
  Visits-Writes m w = record {
    batched = λ s h b. SameTables-IsBatched s _ (Changes-SameTables (w.at s)) b;
    others = λ s other d. rw ((Changes-SameTables (w.at s)).members) refl;
  }

  pub Visits-bind :
      {A B : Type 0} (m : M A) (f : A → M B)
      → Writes now m
      → ((a : A) → Visits c x v (f a))
      → Visits c x v (m >>= f)
  Visits-bind m f wm wf = record {
    batched = λ s. bind-IsBatched m f s (m s).0 (m s).1 refl (Changes-SameTables (wm.at s)) wf;
    others = λ s. bind-others m f s (m s).0 (m s).1 refl (Changes-SameTables (wm.at s)) wf;
  }

  -- What follows the UPDATE leaves the tables alone.
  pub Visits-then :
      {A B : Type 0} (m : M A) (f : A → M B)
      → Visits c x v m
      → ((a : A) → Writes now (f a))
      → Visits c x v (m >>= f)
  Visits-then m f vm wf = record {
    batched = λ s h b. then-IsBatched m f s (m s).0 (m s).1 refl (vm.batched s h b) wf;
    others = λ s. then-others c v m f s (m s).0 (m s).1 refl (vm.others s) wf;
  }

module _ {c : Text} {x : Campaign} (v : MemberView) (q : Member → Bool) (f : Member → Member)
    (k : KeepsKey f) (only : (m : Member) → q m ≡ true → by_member c v.row.node_id m ≡ true)
    (w : q v.row ≡ true → InOrder x v.row → InOrder x (f v.row)) where
  pub Visits-write_members : Visits c x v (write_members q f)
  Visits-write_members = record {
    batched = λ s h b. update-IsBatched c v.row.node_id q f k only x s v.row h w b;
    others = λ s other d. update-others c v.row.node_id q f k only other s.members d;
  }

  pub Visits-assign : (i : Text) → Visits c x v (assign q i f)
  unfolding assign
  Visits-assign i = record {
    batched = λ s h b.
        elim (Bool-cases (any_row q s.members && any_row (λ m. not (q m) && holds i m) s.members)) [
          | inl taken ↦ rw taken b
          | inr free ↦ rw free (Visits-write_members.batched s h b)
        ];
    others = λ s other d.
        elim (Bool-cases (any_row q s.members && any_row (λ m. not (q m) && holds i m) s.members)) [
          | inl taken ↦ rw taken refl
          | inr free ↦ rw free (Visits-write_members.others s other d)
        ];
  }
