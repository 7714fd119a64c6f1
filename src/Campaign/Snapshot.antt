-- ===== src/Campaign/Snapshot.antt =====
-- What a reading of the members shows of their table: each row as it is found under its key, once.
use box_fleet.Base.{
  ◌≤◌, ◌≡◌, refl, Text, same, same_iff, Bool, true, some, List, [], ◌∷◌, arith, find_row,
  count_rows, keep_rows, leb, Bool-cases, Option-cases, inl, inr, All, count_rows-find_row-some,
}
use box_fleet.Database.{Member, Node, Store}
use box_fleet.Campaign.Sql.{
  by_campaign, by_member, MemberView, insert_member, sort_members, join_nodes, list_members,
}

module _ {ℓ} {A : Type ℓ} where
  pub All-map {κ μ} :
      (P : A → Type κ) (Q : A → Type μ) (xs : List A) → ((x : A) → P x → Q x) → All P xs → All Q xs
  All-map P Q [] h a = tt
  All-map P Q (x ∷ xs) h a = (h x a.0, All-map P Q xs h a.1)

  pub All-keep_rows {κ} :
      (P : A → Type κ) (q : A → Bool) (xs : List A)
      → All (λ x. q x ≡ true → P x) xs
      → All P (keep_rows q xs)
  unfolding keep_rows
  All-keep_rows P q [] a = tt
  All-keep_rows P q (x ∷ xs) a = elim (Bool-cases (q x)) [
    | inl hit ↦ rw hit (a.0 hit, All-keep_rows P q xs a.1)
    | inr miss ↦ rw miss (All-keep_rows P q xs a.1)
  ]

module _ {κ} (P : Member → Type κ) where
  All-insert_member : (m : Member) (ms : List Member) → P m → All P ms → All P (insert_member m ms)
  unfolding insert_member
  All-insert_member m [] h a = (h, tt)
  All-insert_member m (x ∷ xs) h a = elim (Bool-cases (leb x.position m.position)) [
    | inl le ↦ rw le (a.0, All-insert_member m xs h a.1)
    | inr gt ↦ rw gt (h, a)
  ]

  All-sort_members : (ms : List Member) → All P ms → All P (sort_members ms)
  unfolding sort_members
  All-sort_members [] a = tt
  All-sort_members (m ∷ ms) a = All-insert_member m (sort_members ms) a.0 (All-sort_members ms a.1)

  All-join_nodes :
      (nodes : List Node) (ms : List Member)
      → All P ms
      → All (λ (v : MemberView). P v.row) (join_nodes nodes ms)
  unfolding join_nodes
  All-join_nodes nodes [] a = tt
  All-join_nodes nodes (m ∷ ms) a =
      elim (Option-cases (find_row (λ (n : Node). same n.id m.node_id) nodes)) [
        | inl gone ↦ rw gone (All-join_nodes nodes ms a.1)
        | inr (n, there) ↦ rw there (a.0, All-join_nodes nodes ms a.1)
      ]

abbrev pub at_node : Text → Member → Bool
at_node node m = same m.node_id node

abbrev pub view_at : Text → MemberView → Bool
view_at node v = at_node node v.row

count_rows-insert_member :
    (q : Member → Bool) (m : Member) (ms : List Member)
    → count_rows q (insert_member m ms) ≡ count_rows q (m ∷ ms)
unfolding count_rows insert_member
count_rows-insert_member q m [] = refl
count_rows-insert_member q m (x ∷ xs) = ground (arith, count_rows-insert_member q m xs)

count_rows-sort_members :
    (q : Member → Bool) (ms : List Member) → count_rows q (sort_members ms) ≡ count_rows q ms
unfolding count_rows sort_members
count_rows-sort_members q [] = refl
count_rows-sort_members q (m ∷ ms) =
    ground (arith, count_rows-sort_members q ms, count_rows-insert_member q m (sort_members ms))

count_rows-join_nodes :
    (node : Text) (nodes : List Node) (ms : List Member)
    → count_rows (view_at node) (join_nodes nodes ms) ≤ count_rows (at_node node) ms
unfolding count_rows join_nodes
count_rows-join_nodes node nodes [] = omega arith
count_rows-join_nodes node nodes (m ∷ ms) =
    elim (Option-cases (find_row (λ (n : Node). same n.id m.node_id) nodes)) [
      | inl gone ↦ rw gone (omega (arith, count_rows-join_nodes node nodes ms))
      | inr (n, there) ↦ rw there (omega (arith, count_rows-join_nodes node nodes ms))
    ]

count_rows-keep_rows :
    (c node : Text) (ms : List Member)
    → count_rows (at_node node) (keep_rows (by_campaign c) ms) ≡ count_rows (by_member c node) ms
unfolding count_rows keep_rows by_campaign by_member
count_rows-keep_rows c node [] = refl
count_rows-keep_rows c node (m ∷ ms) = ground (arith, count_rows-keep_rows c node ms)

module _ (c : Text) where
  -- Under unique keys, each row is the one that is found under its key.
  found_row :
      (rows : List Member)
      → ((node : Text) → count_rows (by_member c node) rows ≤ 1)
      → All
          (λ (m : Member). by_campaign c m ≡ true → find_row (by_member c m.node_id) rows ≡ some m)
          rows
  unfolding find_row count_rows by_campaign by_member
  found_row [] k = tt
  found_row (x ∷ xs) k =
      (first, All-map _ _ xs later (found_row xs (λ node. omega (arith, k node))))
    where
      first : by_campaign c x ≡ true → find_row (by_member c x.node_id) (x ∷ xs) ≡ some x
      first h = ground (arith, same_iff x.node_id x.node_id)

      later :
          (m : Member)
          → (by_campaign c m ≡ true → find_row (by_member c m.node_id) xs ≡ some m)
          → by_campaign c m ≡ true
          → find_row (by_member c m.node_id) (x ∷ xs) ≡ some m
      later m ih h =
          ground
            (arith, ih h, k m.node_id, count_rows-find_row-some (by_member c m.node_id) xs m (ih h))

  -- The row of a view stands in the table under its key.
  abbrev pub Stands : Store → MemberView → Type 0
  Stands s v = find_row (by_member c v.row.node_id) s.members ≡ some v.row

  pub list_members-Stands :
      (s : Store)
      → ((node : Text) → count_rows (by_member c node) s.members ≤ 1)
      → All (Stands s) (list_members c s)
  unfolding list_members
  list_members-Stands s k =
      All-join_nodes _ s.nodes _
        (All-sort_members _ _ (All-keep_rows _ _ s.members (found_row s.members k)))

  pub list_members-keyed :
      (s : Store)
      → ((node : Text) → count_rows (by_member c node) s.members ≤ 1)
      → (node : Text) → count_rows (view_at node) (list_members c s) ≤ 1
  unfolding list_members
  list_members-keyed s k node = omega (
    arith,
    k node,
    count_rows-join_nodes node s.nodes (sort_members (keep_rows (by_campaign c) s.members)),
    count_rows-sort_members (at_node node) (keep_rows (by_campaign c) s.members),
    count_rows-keep_rows c node s.members,
  )
