-- ===== src/Campaign/Plan.antt =====
-- The batches that the members of a campaign are put in (the end of buildUpdateCampaignMembers in
-- internal/server/api/update_campaigns.go).
use box_fleet.Base.{
  ℕ, ◌+◌, ◌/◌, zero, suc, Text, before, Bool, ◌&&◌, Option, none, some, List, [], ◌∷◌,
  if◌then◌else◌, find_row,
}
use box_fleet.Campaign.Create.{MemberParams}

-- A node that an update can be made on, as buildUpdateCampaignMembers collects it.
pub record Eligible : Type 0 where
  pub node_name : Text
  pub kind : Text
  pub payload : Text
  pub online : Bool
  pub active : Bool

unfoldable pub insert_eligible : Eligible → List Eligible → List Eligible
insert_eligible m [] = m ∷ []
insert_eligible m (x ∷ xs) =
    if before x.node_name m.node_name then x ∷ insert_eligible m xs else m ∷ x ∷ xs

-- By node name.
unfoldable pub sort_eligible : List Eligible → List Eligible
sort_eligible [] = []
sort_eligible (m ∷ ms) = insert_eligible m (sort_eligible ms)

-- The first item that passes the test changes places with the head of the list.
unfoldable pub put_in_place : Eligible → (Eligible → Bool) → List Eligible → List Eligible
put_in_place head p [] = []
put_in_place head p (x ∷ xs) =
    let rest = put_in_place head p xs in if p x then head ∷ xs else x ∷ rest

abbrev pub swapped :
    Eligible → (Eligible → Bool) → List Eligible → Option Eligible → Option (List Eligible)
swapped x p xs none = none
swapped x p xs (some y) = some (y ∷ put_in_place x p xs)

unfoldable pub swap_first : (Eligible → Bool) → List Eligible → Option (List Eligible)
swap_first p [] = none
swap_first p (x ∷ xs) = if p x then some (x ∷ xs) else swapped x p xs (find_row p xs)

abbrev pub online_active : Eligible → Bool
online_active x = x.online && x.active

abbrev pub or_else : {A : Type 0} → Option A → Option A → Option A
or_else none b = b
or_else (some a) b = some a

-- The canary first: the first node that is online and active, or else the first that is online.
unfoldable pub put_canary_first : List Eligible → Option (List Eligible)
unfolding swap_first put_in_place
put_canary_first xs = or_else (swap_first online_active xs) (swap_first (λ x. x.online) xs)

-- The canary is batch 0 alone; the others follow in batches of the size asked for.
abbrev pub batch_at : ℕ → ℕ → ℕ
batch_at size zero = 0
batch_at size (suc i) = 1 + i / size

unfoldable pub number_members : ℕ → ℕ → List Eligible → List MemberParams
number_members size i [] = []
number_members size i (x ∷ xs) =
    record {
      node_name = x.node_name;
      position = i;
      batch_number = batch_at size i;
      kind = x.kind;
      payload = x.payload;
    }
    ∷ number_members size (suc i) xs

abbrev pub planned : ℕ → Option (List Eligible) → Option (List MemberParams)
planned size none = none
planned size (some xs) = some (number_members size 0 xs)

-- The end of buildUpdateCampaignMembers: none where no node is online.
unfoldable pub plan_members : ℕ → List Eligible → Option (List MemberParams)
unfolding put_canary_first sort_eligible number_members
plan_members size xs = planned size (put_canary_first (sort_eligible xs))
