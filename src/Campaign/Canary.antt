-- ===== src/Campaign/Canary.antt =====
-- The plan of a campaign starts with one canary, which is online.
use box_fleet.Base.{
  ℕ, ◌≡◌, refl, sym, ◌∙◌, ◌⊎◌, before, none, false, Text, Bool, true, some, List, [], ◌∷◌, arith,
  suc, ◌==◌, find_row, find_row-holds, count_rows, Bool-cases, Option-cases, inl, inr,
}
use box_fleet.Campaign.Create.{MemberParams}
use box_fleet.Campaign.Plan.{
  Eligible, put_in_place, swap_first, put_canary_first, number_members, plan_members, sort_eligible,
  insert_eligible, online_active,
}

abbrev pub in_first_batch : MemberParams → Bool
in_first_batch m = m.batch_number == 0

abbrev pub canaries : List MemberParams → ℕ
canaries = count_rows in_first_batch

later_batches : (size i : ℕ) (xs : List Eligible) → canaries (number_members size (suc i) xs) ≡ 0
unfolding number_members count_rows
later_batches size i [] = refl
later_batches size i (x ∷ xs) = ground (arith, later_batches size (suc i) xs)

-- The same items, in another order.
pub record HasSameItems (xs ys : List Eligible) : Type 0 where
  pub count : (q : Eligible → Bool) → count_rows q ys ≡ count_rows q xs

-- The nodes of a list.
abbrev pub IsOneOf : Eligible → List Eligible → Type 0
IsOneOf z [] = ⊥
IsOneOf z (x ∷ xs) = (z ≡ x) ⊎ IsOneOf z xs

find_row-IsOneOf :
    (p : Eligible → Bool) (xs : List Eligible) (y : Eligible)
    → find_row p xs ≡ some y
    → IsOneOf y xs
unfolding find_row
find_row-IsOneOf p [] y h = cc
find_row-IsOneOf p (x ∷ xs) y h = elim (Bool-cases (p x)) [
  | inl hit ↦ let e : y ≡ x = ground arith in inl e
  | inr miss ↦ inr (find_row-IsOneOf p xs y (rw miss at h))
]

find_row-count :
    (p : Eligible → Bool) (xs : List Eligible) → find_row p xs ≡ none → count_rows p xs ≡ 0
unfolding find_row count_rows
find_row-count p [] h = refl
find_row-count p (x ∷ xs) h = ground (arith, find_row-count p xs)

swap_first-count :
    (p : Eligible → Bool) (xs : List Eligible) → swap_first p xs ≡ none → count_rows p xs ≡ 0
unfolding swap_first count_rows
swap_first-count p [] h = refl
swap_first-count p (x ∷ xs) h = elim (Option-cases (find_row p xs)) [
  | inl e ↦ ground (arith, find_row-count p xs e)
  | inr (y, e) ↦ ground arith
]

insert_eligible-IsOneOf :
    (z x : Eligible) (xs : List Eligible) → IsOneOf z (insert_eligible x xs) → IsOneOf z (x ∷ xs)
unfolding insert_eligible
insert_eligible-IsOneOf z x [] h = h
insert_eligible-IsOneOf z x (y ∷ ys) h = elim (Bool-cases (before y.node_name x.node_name)) [
  | inl hit ↦ elim (rw hit at h) [
    | inl e ↦ inr (inl e)
    | inr later ↦ elim (insert_eligible-IsOneOf z x ys later) [
      | inl e ↦ inl e
      | inr there ↦ inr (inr there)
    ]
  ]
  | inr miss ↦ rw miss at h
]

sort_eligible-IsOneOf :
    (z : Eligible) (xs : List Eligible) → IsOneOf z (sort_eligible xs) → IsOneOf z xs
unfolding sort_eligible
sort_eligible-IsOneOf z [] h = h
sort_eligible-IsOneOf z (x ∷ xs) h = elim (insert_eligible-IsOneOf z x (sort_eligible xs) h) [
  | inl e ↦ inl e
  | inr later ↦ inr (sort_eligible-IsOneOf z xs later)
]

put_in_place-count :
    (h y : Eligible) (p q : Eligible → Bool) (xs : List Eligible)
    → find_row p xs ≡ some y
    → count_rows q (y ∷ put_in_place h p xs) ≡ count_rows q (h ∷ xs)
unfolding put_in_place find_row count_rows
put_in_place-count h y p q [] e = cc
put_in_place-count h y p q (x ∷ xs) e = elim (Bool-cases (p x)) [
  | inl hit ↦ let same_item : x ≡ y = ground arith in rw (hit, sym same_item) (omega arith)
  | inr miss ↦ rw miss (omega (arith, put_in_place-count h y p q xs (rw miss at e)))
]

-- The list with an item that passes the test at its head.
pub record IsHeaded (p : Eligible → Bool) (xs ys : List Eligible) : Type 0 where
  pub head : Eligible
  pub tail : List Eligible
  pub shape : ys ≡ head ∷ tail
  pub passes : p head ≡ true
  pub there : IsOneOf head xs
  pub items : HasSameItems xs ys

swap_first-IsHeaded :
    (p : Eligible → Bool) (xs ys : List Eligible) → swap_first p xs ≡ some ys → IsHeaded p xs ys
unfolding swap_first
swap_first-IsHeaded p [] ys e = cc
swap_first-IsHeaded p (x ∷ xs) ys e = elim (Bool-cases (p x)) [
  | inl hit ↦ record {
    head = x;
    tail = xs;
    shape = ground arith;
    passes = hit;
    there = inl refl;
    items =
        let same_list : x ∷ xs ≡ ys = ground arith in
        rw (sym same_list) (record { count = λ q. refl });
  }
  | inr miss ↦ elim (Option-cases (find_row p xs)) [
    | inl gone ↦ ground arith
    | inr (y, there) ↦
        let same_list : y ∷ put_in_place x p xs ≡ ys = ground arith in
        record {
          head = y;
          tail = put_in_place x p xs;
          shape = sym same_list;
          passes = find_row-holds p xs y there;
          there = inr (find_row-IsOneOf p xs y there);
          items = rw (sym same_list) (record { count = λ q. put_in_place-count x y p q xs there });
        }
  ]
]

abbrev IsPreferred : Eligible → List Eligible → Type 0
IsPreferred x xs = x.active ≡ false → count_rows online_active xs ≡ 0

put_canary_first-IsHeaded :
    (xs ys : List Eligible)
    → put_canary_first xs ≡ some ys
    → (v : IsHeaded (λ x. x.online) xs ys) × IsPreferred v.head xs
unfolding put_canary_first
put_canary_first-IsHeaded xs ys e = elim (Option-cases (swap_first online_active xs)) [
  | inl none_active ↦ (
    swap_first-IsHeaded (λ x. x.online) xs ys (rw none_active at e),
    λ inactive. swap_first-count online_active xs none_active,
  )
  | inr (zs, some_active) ↦
      let v = swap_first-IsHeaded online_active xs ys (ground arith) in
      let passed = v.passes in
      (
        record {
          head = v.head;
          tail = v.tail;
          shape = v.shape;
          passes = ground (arith, passed);
          there = v.there;
          items = v.items;
        },
        λ inactive. ground (arith, passed),
      )
]

insert_eligible-count :
    (q : Eligible → Bool) (x : Eligible) (xs : List Eligible)
    → count_rows q (insert_eligible x xs) ≡ count_rows q (x ∷ xs)
unfolding insert_eligible count_rows
insert_eligible-count q x [] = refl
insert_eligible-count q x (y ∷ ys) = ground (arith, insert_eligible-count q x ys)

sort_eligible-count :
    (q : Eligible → Bool) (xs : List Eligible) → count_rows q (sort_eligible xs) ≡ count_rows q xs
unfolding sort_eligible count_rows
sort_eligible-count q [] = refl
sort_eligible-count q (x ∷ xs) =
    ground (arith, sort_eligible-count q xs, insert_eligible-count q x (sort_eligible xs))

number_members-count :
    (size i : ℕ) (q : Text → Bool) (xs : List Eligible)
    → count_rows (λ (m : MemberParams). q m.node_name) (number_members size i xs)
      ≡ count_rows (λ (x : Eligible). q x.node_name) xs
unfolding number_members count_rows
number_members-count size i q [] = refl
number_members-count size i q (x ∷ xs) = ground (arith, number_members-count size (suc i) q xs)

-- A plan of the members, which is made if some eligible node is online.
pub record IsPlan (xs : List Eligible) (ms : List MemberParams) : Type 0 where
  pub canary : Eligible
  pub eligible : IsOneOf canary xs
  pub online : canary.online ≡ true
  -- An active node is preferred.
  pub preferred : canary.active ≡ false → count_rows online_active xs ≡ 0
  pub first :
      find_row in_first_batch ms
      ≡ some (record {
        node_name = canary.node_name;
        position = 0;
        batch_number = 0;
        kind = canary.kind;
        payload = canary.payload;
      })
  pub single : canaries ms ≡ 1
  pub nodes :
      (q : Text → Bool)
      → count_rows (λ (m : MemberParams). q m.node_name) ms
        ≡ count_rows (λ (x : Eligible). q x.node_name) xs

number_members-IsPlan :
    (size : ℕ) (xs ys : List Eligible)
    → (v : IsHeaded (λ x. x.online) (sort_eligible xs) ys) → IsPreferred v.head (sort_eligible xs)
    → IsPlan xs (number_members size 0 ys)
unfolding number_members count_rows find_row
number_members-IsPlan size xs ys v w = record {
  canary = v.head;
  eligible = sort_eligible-IsOneOf v.head xs v.there;
  online = v.passes;
  preferred = λ inactive. sym (sort_eligible-count online_active xs) ∙ w inactive;
  first = rw (v.shape) refl;
  single = rw (v.shape) (omega (arith, later_batches size 0 v.tail));
  nodes = λ q. omega (
    arith,
    number_members-count size 0 q ys,
    v.items.count (λ x. q x.node_name),
    sort_eligible-count (λ x. q x.node_name) xs,
  );
}

-- A plan that buildUpdateCampaignMembers makes has exactly one member in batch 0, at position 0, which
-- is an eligible node that is online, an active one if there is one of these, and it names the
-- eligible nodes, each as often as they do.
pub plan_members-IsPlan :
    (size : ℕ) (xs : List Eligible) (ms : List MemberParams)
    → plan_members size xs ≡ some ms
    → IsPlan xs ms
unfolding plan_members
plan_members-IsPlan size xs ms e = elim (Option-cases (put_canary_first (sort_eligible xs))) [
  | inl gone ↦ ground arith
  | inr (ys, there) ↦
      let same_plan : number_members size 0 ys ≡ ms = ground arith in
      let headed = put_canary_first-IsHeaded (sort_eligible xs) ys there in
      rw (sym same_plan) (number_members-IsPlan size xs ys headed.0 headed.1)
]
