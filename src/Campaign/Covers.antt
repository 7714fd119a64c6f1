-- ===== src/Campaign/Covers.antt =====
-- A reading of the members leaves none out: what holds of every view holds of every row.
use box_fleet.Base.{
  ◌≡◌, Text, same, Bool, true, none, some, List, [], ◌∷◌, arith, find_row, keep_rows, leb,
  Bool-cases, Option-cases, inl, inr, All, find_row-All, find_row-holds,
}
use box_fleet.Database.{Member, Node, Store}
use box_fleet.Campaign.Sql.{
  by_campaign, by_member, MemberView, insert_member, sort_members, join_nodes, list_members,
}
use box_fleet.Campaign.Batches.{HasNode}

module _ {ℓ κ} {A : Type ℓ} (P : A → Type κ) (q : A → Bool) where
  pub keep_rows-All : (xs : List A) → All P (keep_rows q xs) → All (λ x. q x ≡ true → P x) xs
  unfolding keep_rows
  keep_rows-All [] a = tt
  keep_rows-All (x ∷ xs) a = elim (Bool-cases (q x)) [
    | inl hit ↦ let b = rw hit at a in (λ h. b.0, keep_rows-All xs b.1)
    | inr miss ↦ let b = rw miss at a in (λ h. cc, keep_rows-All xs b)
  ]

module _ {κ} (P : Member → Type κ) where
  insert_member-All : (m : Member) (ms : List Member) → All P (insert_member m ms) → P m × All P ms
  unfolding insert_member
  insert_member-All m [] a = (a.0, tt)
  insert_member-All m (x ∷ xs) a = elim (Bool-cases (leb x.position m.position)) [
    | inl le ↦ let b = rw le at a in let (h, rest) = insert_member-All m xs b.1 in (h, (b.0, rest))
    | inr gt ↦ let b = rw gt at a in (b.0, b.1)
  ]

  sort_members-All : (ms : List Member) → All P (sort_members ms) → All P ms
  unfolding sort_members
  sort_members-All [] a = tt
  sort_members-All (m ∷ ms) a =
      let (h, rest) = insert_member-All m (sort_members ms) a in (h, sort_members-All ms rest)

  join_nodes-All :
      (nodes : List Node) (ms : List Member)
      → All (λ (v : MemberView). P v.row) (join_nodes nodes ms)
      → All (λ m. HasNode nodes m → P m) ms
  unfolding join_nodes
  join_nodes-All nodes [] a = tt
  join_nodes-All nodes (m ∷ ms) a =
      elim (Option-cases (find_row (λ (n : Node). same n.id m.node_id) nodes)) [
        | inl gone ↦ let b = rw gone at a in ((λ h. missing h gone), join_nodes-All nodes ms b)
        | inr (n, there) ↦ let b = rw there at a in ((λ h. b.0), join_nodes-All nodes ms b.1)
      ]
    where
      missing : HasNode nodes m → find_row (λ (n : Node). same n.id m.node_id) nodes ≡ none → P m
      missing (n, there) gone = cc

module _ {κ} (P : Member → Type κ) where
  pub list_members-All :
      (c node : Text) (s : Store) (m : Member)
      → All (HasNode s.nodes) s.members
      → All (λ (v : MemberView). P v.row) (list_members c s)
      → find_row (by_member c node) s.members ≡ some m
      → P m
  unfolding list_members by_member by_campaign
  list_members-All c node s m linked a h =
      let rows =
        keep_rows-All (λ m. HasNode s.nodes m → P m) (by_campaign c) s.members
          (sort_members-All (λ m. HasNode s.nodes m → P m) _ (join_nodes-All P s.nodes _ a)) in
      find_row-All (λ m. by_campaign c m ≡ true → HasNode s.nodes m → P m) (by_member c node)
        s.members m rows h (in_campaign (find_row-holds (by_member c node) s.members m h))
        (find_row-All (HasNode s.nodes) (by_member c node) s.members m linked h)
    where
      in_campaign : by_member c node m ≡ true → by_campaign c m ≡ true
      in_campaign e = ground arith
