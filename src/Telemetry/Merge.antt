-- ===== src/Telemetry/Merge.antt =====
-- Merging snapshots of one session: the order and the repetitions do not matter.
use box_fleet.Base.{
  ℕ, ℤ, pos, negsuc, ◌≡◌, refl, sym, ap, ◌∙◌, Text, before, before_irrefl, before_trans,
  before_total, is_empty, false, List, [], ◌∷◌, arith, if◌then◌else◌, max_int, ◌⊎◌, Bool-cases, inl,
  inr,
}
use box_fleet.Telemetry.{Bucket, merge, merge_all, merge_start, merge_end}

max_swap : (a b c : ℤ) → max_int (max_int a b) c ≡ max_int (max_int a c) b
max_swap (pos a) (pos b) (pos c) = ground arith
max_swap (pos a) (pos b) (negsuc c) = ground arith
max_swap (pos a) (negsuc b) (pos c) = ground arith
max_swap (pos a) (negsuc b) (negsuc c) = ground arith
max_swap (negsuc a) (pos b) (pos c) = ground arith
max_swap (negsuc a) (pos b) (negsuc c) = ground arith
max_swap (negsuc a) (negsuc b) (pos c) = ground arith
max_swap (negsuc a) (negsuc b) (negsuc c) = ground arith

pub max_again : (a b : ℤ) → max_int (max_int a b) b ≡ max_int a b
max_again (pos a) (pos b) = ground arith
max_again (pos a) (negsuc b) = ground arith
max_again (negsuc a) (pos b) = ground arith
max_again (negsuc a) (negsuc b) = ground arith

end_swap : (a b c : Text) → merge_end (merge_end a b) c ≡ merge_end (merge_end a c) b
end_swap a b c = ground (
  arith,
  before_trans a b c,
  before_trans a c b,
  before_trans b a c,
  before_trans c a b,
  before_total b c,
  before_total a b,
  before_total a c,
  before_trans b c b,
  before_irrefl b,
)

pub end_again : (a b : Text) → merge_end (merge_end a b) b ≡ merge_end a b
end_again a b = ground (arith, before_irrefl b)

abbrev earlier : Text → Text → Text
earlier a b = if before b a then b else a

earlier_swap : (a b c : Text) → earlier (earlier a b) c ≡ earlier (earlier a c) b
earlier_swap a b c = ground (
  arith,
  before_trans c b a,
  before_trans b c a,
  before_trans b a c,
  before_trans c a b,
  before_total b c,
  before_total a b,
  before_total a c,
  before_trans b c b,
  before_irrefl b,
)

start_earlier :
    (z : ℕ) (a : Text) (x : ℕ) (b : Text) (y : ℕ) (c : Text)
    → merge_start (merge_start (z ∷ a) (x ∷ b)) (y ∷ c) ≡ earlier (earlier (z ∷ a) (x ∷ b)) (y ∷ c)
start_earlier z a x b y c = elim (Bool-cases (before (x ∷ b) (z ∷ a))) [
  | inl hit ↦ rw hit refl
  | inr miss ↦ rw miss refl
]

start_swap : (a b c : Text) → merge_start (merge_start a b) c ≡ merge_start (merge_start a c) b
start_swap a [] c = refl
start_swap a (x ∷ b) [] = refl
start_swap [] (x ∷ b) (y ∷ c) = ground (
  arith,
  before_total (x ∷ b) (y ∷ c),
  before_trans (x ∷ b) (y ∷ c) (x ∷ b),
  before_irrefl (x ∷ b),
)
start_swap (z ∷ a) (x ∷ b) (y ∷ c) =
    start_earlier z a x b y c
    ∙ (earlier_swap (z ∷ a) (x ∷ b) (y ∷ c) ∙ sym (start_earlier z a y c x b))

pub start_again : (a b : Text) → merge_start (merge_start a b) b ≡ merge_start a b
start_again a [] = refl
start_again a (x ∷ b) = ground (arith, before_irrefl (x ∷ b))

pub merge_swap :
    (b x y : Bucket) → is_empty b.connection_id ≡ false → merge (merge b x) y ≡ merge (merge b y) x
unfolding merge
merge_swap b x y session =
    rw
      (
        session,
        max_swap b.connections_opened x.connections_opened y.connections_opened,
        max_swap b.connections_closed x.connections_closed y.connections_closed,
        max_swap b.uplink_bytes x.uplink_bytes y.uplink_bytes,
        max_swap b.downlink_bytes x.downlink_bytes y.downlink_bytes,
        max_swap b.duration_ms_total x.duration_ms_total y.duration_ms_total,
        start_swap b.window_start x.window_start y.window_start,
        end_swap b.window_end x.window_end y.window_end,
      )
      refl

pub merge_again :
    (b x : Bucket) → is_empty b.connection_id ≡ false → merge (merge b x) x ≡ merge b x
unfolding merge
merge_again b x session =
    rw
      (
        session,
        max_again b.connections_opened x.connections_opened,
        max_again b.connections_closed x.connections_closed,
        max_again b.uplink_bytes x.uplink_bytes,
        max_again b.downlink_bytes x.downlink_bytes,
        max_again b.duration_ms_total x.duration_ms_total,
        start_again b.window_start x.window_start,
        end_again b.window_end x.window_end,
      )
      refl

abbrev pub IsOneOf : Bucket → List Bucket → Type 0
IsOneOf x [] = ⊥
IsOneOf x (y ∷ ys) = (x ≡ y) ⊎ IsOneOf x ys

pub merge_late :
    (b x : Bucket) (ys : List Bucket)
    → is_empty b.connection_id ≡ false
    → merge_all (merge b x) ys ≡ merge (merge_all b ys) x
unfolding merge_all merge
merge_late b x [] session = refl
merge_late b x (y ∷ ys) session =
    ap (λ c. merge_all c ys) (merge_swap b x y session) ∙ merge_late (merge b y) x ys session

pub merge_seen :
    (b x : Bucket) (ys : List Bucket)
    → is_empty b.connection_id ≡ false
    → IsOneOf x ys
    → merge_all (merge b x) ys ≡ merge_all b ys
unfolding merge_all merge
merge_seen b x [] session i = elim i [ ]
merge_seen b x (y ∷ ys) session (inl same_item) =
    rw same_item (ap (λ c. merge_all c ys) (merge_again b y session))
merge_seen b x (y ∷ ys) session (inr later) =
    ap (λ c. merge_all c ys) (merge_swap b x y session) ∙ merge_seen (merge b y) x ys session later

merge_covered :
    (b : Bucket) (xs ys : List Bucket)
    → is_empty b.connection_id ≡ false
    → ((x : Bucket) → IsOneOf x xs → IsOneOf x ys)
    → merge_all (merge_all b xs) ys ≡ merge_all b ys
unfolding merge_all merge
merge_covered b [] ys session i = refl
merge_covered b (x ∷ xs) ys session i =
    merge_covered (merge b x) xs ys session (λ y later. i y (inr later))
    ∙ merge_seen b x ys session (i x (inl refl))

merge_order :
    (b : Bucket) (xs ys : List Bucket)
    → is_empty b.connection_id ≡ false
    → merge_all (merge_all b xs) ys ≡ merge_all (merge_all b ys) xs
unfolding merge_all merge
merge_order b [] ys session = refl
merge_order b (x ∷ xs) ys session =
    merge_order (merge b x) xs ys session ∙ ap (λ c. merge_all c xs) (merge_late b x ys session)

-- Two lists with the same snapshots, in any orders and with any repetitions, are merged alike into
-- one bucket.
pub merge_all-same :
    (b : Bucket) (xs ys : List Bucket)
    → is_empty b.connection_id ≡ false
    → ((x : Bucket) → IsOneOf x xs → IsOneOf x ys)
    → ((y : Bucket) → IsOneOf y ys → IsOneOf y xs)
    → merge_all b xs ≡ merge_all b ys
merge_all-same b xs ys session to from =
    sym (merge_covered b ys xs session from)
    ∙ (merge_order b ys xs session ∙ merge_covered b xs ys session to)
