-- ===== src/Resolve/Sorted.antt =====
-- The sort of the selectable paths.
use box_fleet.Base.{
  ◌<◌, ◌⊎◌, ◌∙◌, ◌==◌, ltb, ℤ, pos, negsuc, ltb_int, Text, upto, before_total, All, ◌≡◌, refl,
  before_irrefl, before_trans, Bool, true, false, List, [], ◌∷◌, arith, Bool-cases, inl, inr,
  count_rows,
}
use box_fleet.Resolve.{Hop, ResolvedPath, hop_of, comes_before, insert_path, sort_paths}

abbrev AreInOrder : ResolvedPath → List ResolvedPath → Type 0
AreInOrder x [] = Unit
AreInOrder x (y ∷ ys) = comes_before (hop_of y) (hop_of x) ≡ false

-- No path stands right after one that it comes before.
abbrev AreStepwise : List ResolvedPath → Type 0
AreStepwise [] = Unit
AreStepwise (x ∷ xs) = AreInOrder x xs × AreStepwise xs

-- The order of the integers.
abbrev pub IsBelow : ℤ → ℤ → Type 0
IsBelow (pos a) (pos b) = a < b
IsBelow (pos a) (negsuc b) = ⊥
IsBelow (negsuc a) (pos b) = Unit
IsBelow (negsuc a) (negsuc b) = b < a

-- The first path has the smaller number, or the same number and a name that is not the later one.
abbrev pub IsPlacedBefore : ResolvedPath → ResolvedPath → Type 0
IsPlacedBefore x y =
    IsBelow (hop_of x).sort_order (hop_of y).sort_order
    ⊎ (((hop_of x).sort_order ≡ (hop_of y).sort_order)
        × (upto (hop_of x).name (hop_of y).name ≡ true))

-- Each path is placed before all those that follow it.
abbrev pub AreSorted : List ResolvedPath → Type 0
AreSorted [] = Unit
AreSorted (x ∷ xs) = All (IsPlacedBefore x) xs × AreSorted xs

IsBelow-trans : (a b c : ℤ) → IsBelow a b → IsBelow b c → IsBelow a c
IsBelow-trans (pos a) (pos b) (pos c) h k = omega arith
IsBelow-trans (pos a) (pos b) (negsuc c) h k = elim k [ ]
IsBelow-trans (pos a) (negsuc b) c h k = elim h [ ]
IsBelow-trans (negsuc a) (pos b) (pos c) h k = tt
IsBelow-trans (negsuc a) (pos b) (negsuc c) h k = elim k [ ]
IsBelow-trans (negsuc a) (negsuc b) (pos c) h k = tt
IsBelow-trans (negsuc a) (negsuc b) (negsuc c) h k = omega arith

IsBelow-cases : (a b : ℤ) → IsBelow a b ⊎ ((a ≡ b) ⊎ (ltb_int b a ≡ true))
IsBelow-cases (pos a) (pos b) = elim (Bool-cases (ltb b a)) [
  | inl hit ↦ inr (inr hit)
  | inr miss ↦ elim (Bool-cases (a == b)) [
    | inl equal ↦ let e : a ≡ b = ground arith in inr (inl (rw e refl))
    | inr differ ↦ inl (ground arith)
  ]
]
IsBelow-cases (pos a) (negsuc b) = inr (inr refl)
IsBelow-cases (negsuc a) (pos b) = inl tt
IsBelow-cases (negsuc a) (negsuc b) = elim (Bool-cases (ltb a b)) [
  | inl hit ↦ inr (inr hit)
  | inr miss ↦ elim (Bool-cases (a == b)) [
    | inl equal ↦ let e : a ≡ b = ground arith in inr (inl (rw e refl))
    | inr differ ↦ inl (ground arith)
  ]
]

ltb_int_irrefl : (a : ℤ) → ltb_int a a ≡ false
ltb_int_irrefl (pos a) = ground arith
ltb_int_irrefl (negsuc a) = ground arith

comes_before-IsPlacedBefore :
    (x y : ResolvedPath) → comes_before (hop_of y) (hop_of x) ≡ false → IsPlacedBefore x y
comes_before-IsPlacedBefore x y h =
    elim (IsBelow-cases (hop_of x).sort_order (hop_of y).sort_order) [
      | inl below ↦ inl below
      | inr (inl e) ↦
          let least = ltb_int_irrefl (hop_of y).sort_order in
          let turned = rw e at h in inr (e, ground (arith, least, turned))
      | inr (inr above) ↦ ground arith
    ]

upto_trans : (a b c : Text) → upto a b ≡ true → upto b c ≡ true → upto a c ≡ true
upto_trans a b c h k = ground (
  arith,
  before_total a b,
  before_total b c,
  before_trans c a b,
  before_trans a b c,
  before_trans b c a,
  before_irrefl a,
)

placed_trans : (x y z : ResolvedPath) → IsPlacedBefore x y → IsPlacedBefore y z → IsPlacedBefore x z
placed_trans x y z (inl h) (inl k) =
    inl (IsBelow-trans (hop_of x).sort_order (hop_of y).sort_order (hop_of z).sort_order h k)
placed_trans x y z (inl h) (inr (e, k)) = inl (rw e at h)
placed_trans x y z (inr (d, h)) (inl k) = inl (rw d k)
placed_trans x y z (inr (d, h)) (inr (e, k)) =
    inr (d ∙ e, upto_trans (hop_of x).name (hop_of y).name (hop_of z).name h k)

placed-All :
    (x y : ResolvedPath) (ys : List ResolvedPath)
    → IsPlacedBefore x y
    → All (IsPlacedBefore y) ys
    → All (IsPlacedBefore x) ys
placed-All x y [] h k = tt
placed-All x y (z ∷ ys) h k = (placed_trans x y z h k.0, placed-All x y ys h k.1)

AreStepwise-AreSorted : (xs : List ResolvedPath) → AreStepwise xs → AreSorted xs
AreStepwise-AreSorted [] h = tt
AreStepwise-AreSorted (x ∷ []) h = (tt, tt)
AreStepwise-AreSorted (x ∷ y ∷ ys) h =
    let rest = AreStepwise-AreSorted (y ∷ ys) h.1 in
    let placed = comes_before-IsPlacedBefore x y h.0 in
    ((placed, placed-All x y ys placed rest.0), rest)

ltb_int_asym : (a b : ℤ) → ltb_int a b ≡ true → ltb_int b a ≡ false
ltb_int_asym (pos a) (pos b) h = ground arith
ltb_int_asym (pos a) (negsuc b) h = cc
ltb_int_asym (negsuc a) (pos b) h = refl
ltb_int_asym (negsuc a) (negsuc b) h = ground arith

comes_before_asym : (a b : Hop) → comes_before a b ≡ true → comes_before b a ≡ false
comes_before_asym a b h = ground (
  arith,
  ltb_int_asym a.sort_order b.sort_order,
  ltb_int_asym b.sort_order a.sort_order,
  before_trans a.name b.name a.name,
  before_irrefl a.name,
)

insert_path-AreInOrder :
    (x r : ResolvedPath) (xs : List ResolvedPath)
    → comes_before (hop_of x) (hop_of r) ≡ true
    → AreInOrder x xs
    → AreInOrder x (insert_path r xs)
unfolding insert_path
insert_path-AreInOrder x r [] h k = comes_before_asym (hop_of x) (hop_of r) h
insert_path-AreInOrder x r (y ∷ ys) h k = elim (Bool-cases (comes_before (hop_of y) (hop_of r))) [
  | inl hit ↦ rw hit k
  | inr miss ↦ rw miss (comes_before_asym (hop_of x) (hop_of r) h)
]

insert_path-AreStepwise :
    (r : ResolvedPath) (xs : List ResolvedPath) → AreStepwise xs → AreStepwise (insert_path r xs)
unfolding insert_path
insert_path-AreStepwise r [] h = (tt, tt)
insert_path-AreStepwise r (x ∷ xs) h = elim (Bool-cases (comes_before (hop_of x) (hop_of r))) [
  | inl hit ↦ rw hit (insert_path-AreInOrder x r xs hit h.0, insert_path-AreStepwise r xs h.1)
  | inr miss ↦ rw miss (miss, h)
]

sort_paths-AreStepwise : (rs : List ResolvedPath) → AreStepwise (sort_paths rs)
unfolding sort_paths
sort_paths-AreStepwise [] = tt
sort_paths-AreStepwise (r ∷ rs) =
    insert_path-AreStepwise r (sort_paths rs) (sort_paths-AreStepwise rs)

pub sort_paths-AreSorted : (rs : List ResolvedPath) → AreSorted (sort_paths rs)
sort_paths-AreSorted rs = AreStepwise-AreSorted (sort_paths rs) (sort_paths-AreStepwise rs)

insert_path-count :
    (q : ResolvedPath → Bool) (r : ResolvedPath) (xs : List ResolvedPath)
    → count_rows q (insert_path r xs) ≡ count_rows q (r ∷ xs)
unfolding insert_path count_rows
insert_path-count q r [] = refl
insert_path-count q r (x ∷ xs) = ground (arith, insert_path-count q r xs)

pub sort_paths-count :
    (q : ResolvedPath → Bool) (rs : List ResolvedPath)
    → count_rows q (sort_paths rs) ≡ count_rows q rs
unfolding sort_paths count_rows
sort_paths-count q [] = refl
sort_paths-count q (r ∷ rs) =
    ground (arith, sort_paths-count q rs, insert_path-count q r (sort_paths rs))
