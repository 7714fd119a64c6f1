-- ===== src/Campaign/Loops.antt =====
-- A loop over the members that were read visits each of them once, and keeps the batches in order.
use box_fleet.Base.{
  ◌≤◌, ◌≡◌, refl, Text, same, same_iff, Bool, true, false, List, [], ◌∷◌, arith, count_rows, All,
  ◌∙◌, if◌then◌else◌,
}
use box_fleet.Database.{Campaign, Store, Result, ok, err, M, ◌>>=◌, return}
use box_fleet.Operation.Steps.Rules.{Writes}
use box_fleet.Campaign.Sql.{MemberView}
use box_fleet.Campaign.Sync.{for_each}
use box_fleet.Campaign.Batches.{IsBatched}
use box_fleet.Campaign.Snapshot.{Stands, view_at}
use box_fleet.Campaign.Visits.{Visits, OthersStay, Changes-SameTables, SameTables-IsBatched}

-- The views are rows of the table, each of another node.
pub record IsSnapshot (c : Text) (vs : List MemberView) (s : Store) : Type 0 where
  pub stands : All (Stands c s) vs
  pub keyed : (node : Text) → count_rows (view_at node) vs ≤ 1

distinct :
    (v : MemberView) (vs : List MemberView)
    → count_rows (view_at v.row.node_id) (v ∷ vs) ≤ 1
    → All (λ (w : MemberView). same v.row.node_id w.row.node_id ≡ false) vs
unfolding count_rows
distinct v [] k = tt
distinct v (w ∷ ws) k = (
  ground (
    arith,
    same_iff v.row.node_id v.row.node_id,
    same_iff v.row.node_id w.row.node_id,
    same_iff w.row.node_id v.row.node_id,
  ),
  distinct v ws (omega (arith, k)),
)

rest-Stands :
    (c : Text) (v : MemberView) (vs : List MemberView) (s t : Store)
    → OthersStay c v s t
    → All (λ (w : MemberView). same v.row.node_id w.row.node_id ≡ false) vs
    → All (Stands c s) vs
    → All (Stands c t) vs
rest-Stands c v [] s t o d a = tt
rest-Stands c v (w ∷ ws) s t o d a = (o w.row.node_id d.0 ∙ a.0, rest-Stands c v ws s t o d.1 a.1)

IsSnapshot-rest :
    (c : Text) (v : MemberView) (vs : List MemberView) (s t : Store)
    → OthersStay c v s t
    → IsSnapshot c (v ∷ vs) s
    → IsSnapshot c vs t
unfolding count_rows
IsSnapshot-rest c v vs s t o k = record {
  stands = rest-Stands c v vs s t o (distinct v vs (k.keyed v.row.node_id)) (k.stands.1);
  keyed = λ node. omega (arith, k.keyed node);
}

-- A method that keeps the batches in order from any state that the views are read in.
pub record Keeps (c : Text) (x : Campaign) (vs : List MemberView) {A : Type 0} (m : M A)
    : Type 0 where
  pub at : (s : Store) → IsSnapshot c vs s → IsBatched c x s → IsBatched c x (m s).1

module _ {c : Text} {x : Campaign} where
  visit-IsBatched :
      {A B : Type 0} (v : MemberView) (vs : List MemberView) (m : M A) (f : A → M B) (s : Store)
      (r : Result A) (t : Store)
      → m s ≡ (r, t)
      → IsBatched c x t
      → IsSnapshot c vs t
      → ((a : A) → Keeps c x vs (f a))
      → IsBatched c x ((m >>= f) s).1
  unfolding ◌>>=◌
  visit-IsBatched v vs m f s (ok a) t e b k w = rw e ((w a).at t k b)
  visit-IsBatched v vs m f s (err z) t e b k w = rw e b

  pub Keeps-visit :
      {A B : Type 0} (v : MemberView) (vs : List MemberView) (m : M A) (f : A → M B)
      → Visits c x v m
      → ((a : A) → Keeps c x vs (f a))
      → Keeps c x (v ∷ vs) (m >>= f)
  Keeps-visit v vs m f vm wf = record {
    at = λ s k b.
        visit-IsBatched v vs m f s (m s).0 (m s).1 refl (vm.batched s (k.stands.0) b)
          (IsSnapshot-rest c v vs s _ (vm.others s) k) wf;
  }

  pub Keeps-return : {A : Type 0} (vs : List MemberView) (a : A) → Keeps c x vs (return a)
  unfolding return
  Keeps-return vs a = record { at = λ s k b. b }

  then-IsBatched :
      {now : Text} {A B : Type 0} (m : M A) (f : A → M B) (s : Store) (r : Result A) (t : Store)
      → m s ≡ (r, t)
      → IsBatched c x t
      → ((a : A) → Writes now (f a))
      → IsBatched c x ((m >>= f) s).1
  unfolding ◌>>=◌
  then-IsBatched m f s (ok a) t e b w =
      rw e (SameTables-IsBatched t _ (Changes-SameTables ((w a).at t)) b)
  then-IsBatched m f s (err z) t e b w = rw e b

  pub Keeps-then :
      {A B : Type 0} (now : Text) (vs : List MemberView) (m : M A) (f : A → M B)
      → Keeps c x vs m
      → ((a : A) → Writes now (f a))
      → Keeps c x vs (m >>= f)
  Keeps-then now vs m f km wf = record {
    at = λ s k b. then-IsBatched m f s (m s).0 (m s).1 refl (km.at s k b) wf;
  }

  pub Keeps-for_each :
      (f : MemberView → M (Unit {0})) (vs : List MemberView)
      → ((v : MemberView) → Visits c x v (f v))
      → Keeps c x vs (for_each f vs)
  unfolding for_each
  Keeps-for_each f [] w = Keeps-return [] tt
  Keeps-for_each f (v ∷ vs) w = Keeps-visit v vs (f v) _ (w v) (λ _. Keeps-for_each f vs w)

  -- The first member is left alone.
  pub Keeps-skip :
      {A : Type 0} (v : MemberView) (vs : List MemberView) (m : M A)
      → Keeps c x vs m
      → Keeps c x (v ∷ vs) m
  Keeps-skip v vs m w = record {
    at = λ s k b. w.at s (IsSnapshot-rest c v vs s s (λ other d. refl) k) b;
  }

  pub Keeps-if :
      {A : Type 0} (b : Bool) (vs : List MemberView) (m n : M A)
      → (b ≡ true → Keeps c x vs m)
      → Keeps c x vs n
      → Keeps c x vs (if b then m else n)
  Keeps-if true vs m n h k = h refl
  Keeps-if false vs m n h k = k
