-- ===== src/Campaign/BatchSize.antt =====
-- No batch of a plan is larger than the size that was asked for.
use Prim.Native.Nat.{◌-◌, ◌/◌}
use native.Mathlib.Omega.{div_any}
use native.Mathlib.Nat.{mod-lt}
use box_fleet.Base.{
  ℕ, ◌+◌, ◌*◌, ◌≤◌, ◌<◌, ◌≡◌, sym, some, List, [], ◌∷◌, arith, suc, ◌==◌, count_rows, Bool-cases,
  Option-cases, inl, inr,
}
use box_fleet.Campaign.Create.{MemberParams}
use box_fleet.Campaign.Plan.{
  Eligible, put_canary_first, number_members, plan_members, sort_eligible,
}

abbrev pub batch_count : ℕ → List MemberParams → ℕ
batch_count b = count_rows (λ (m : MemberParams). m.batch_number == b)

-- The items of batch k + 1 have indexes from size * k below size * k + size.
indexes : (size k i : ℕ) → 0 < size → i / size ≡ k → (size * k ≤ i) × (i < size * k + size)
indexes size k i pos e =
    let d = rw e at (div_any i size) in (omega (arith, d), omega (arith, d, mod-lt i pos))

record IsBounded (size m i c : ℕ) : Type 0 where
  pub small : c ≤ size
  pub left : c ≤ (m + size) - i

number_members-IsBounded :
    (size k i : ℕ) (xs : List Eligible)
    → 0 < size
    → IsBounded size (size * k) i (batch_count (suc k) (number_members size (suc i) xs))
unfolding number_members count_rows
number_members-IsBounded size k i [] pos = record { small = omega arith; left = omega arith }
number_members-IsBounded size k i (x ∷ xs) pos =
    let v = number_members-IsBounded size k (suc i) xs pos in
    elim (Bool-cases (1 + i / size == suc k)) [
      | inl hit ↦
          let (low, high) = indexes size k i pos (ground arith) in
          rw hit (record {
            small = omega (arith, v.left, low, high);
            left = omega (arith, v.left, low, high);
          })
      | inr miss ↦ rw miss (record { small = omega (arith, v.small); left = omega (arith, v.left) })
    ]

batch_count-number_members :
    (size k : ℕ) (xs : List Eligible)
    → 0 < size
    → batch_count (suc k) (number_members size 0 xs) ≤ size
unfolding number_members count_rows
batch_count-number_members size k [] pos = omega arith
batch_count-number_members size k (x ∷ xs) pos =
    ground (arith, (number_members-IsBounded size k 0 xs pos).small)

-- In a plan that buildUpdateCampaignMembers makes for a batch size above 0, no batch after the canary
-- has more members than that size.
pub batch_count-plan_members :
    (size k : ℕ) (xs : List Eligible) (ms : List MemberParams)
    → 0 < size
    → plan_members size xs ≡ some ms
    → batch_count (suc k) ms ≤ size
unfolding plan_members
batch_count-plan_members size k xs ms pos e =
    elim (Option-cases (put_canary_first (sort_eligible xs))) [
      | inl gone ↦ ground arith
      | inr (ys, there) ↦
          let same_plan : number_members size 0 ys ≡ ms = ground arith in
          rw (sym same_plan) (batch_count-number_members size k ys pos)
    ]
