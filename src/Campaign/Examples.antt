-- ===== src/Campaign/Examples.antt =====
-- A campaign of two nodes, and the theorems of the component at it.
use box_fleet.Base.{
  ◌≤◌, ℕ, ◌≡◌, refl, sym, Text, text, same, same_iff, true, false, none, some, List, [], ◌∷◌, arith,
  find_row, count_rows, before, Bool-cases, inl, inr, trim_space,
}
use box_fleet.Database.{queued, pending, update_agent, Campaign, Member, Node, Store}
use box_fleet.Operation.Steps.{looks}
use box_fleet.Campaign.Sql.{by_member, is_campaign}
use box_fleet.Campaign.Batches.{InOrder, IsBatched}
use box_fleet.Campaign.Progress.{HasBatches}
use box_fleet.Operation.OneActive.{IsExclusive}
use box_fleet.Operation.Log.{IsLog}
use box_fleet.Operation.Sql.{last_sequence}
use box_fleet.Campaign.Kept.{campaign_run-IsExclusive, campaign_run-IsLog}
use box_fleet.Campaign.Create.{MemberParams}
use box_fleet.Campaign.Plan.{
  Eligible, plan_members, put_canary_first, sort_eligible, insert_eligible, swap_first,
  put_in_place, number_members,
}
use box_fleet.Campaign.BatchSize.{batch_count, batch_count-plan_members}
use box_fleet.Campaign.Canary.{IsPlan, plan_members-IsPlan}
use box_fleet.Operation.Samples.{plain, idle, ended}
use box_fleet.Operation.Sql.{get_by_id, by_id}
use box_fleet.Campaign.Kept.{campaign_run-frozen}
use box_fleet.Campaign.Steps.{
  CampaignCall, reconciles, cancels_campaign, resumes, operates, campaign_run,
  campaign_run-HasBatches,
}

abbrev node_at : Text → Node
node_at i = record { id = i; name = i; aliases = []; disabled = false; deleted = false }

abbrev first_campaign : Campaign
first_campaign = record {
  id = text "upc_1";
  release = text "v2";
  components_json = [];
  status = queued;
  idempotency_key = text "k";
  spec_hash = text "h";
  batch_size = 1;
  current_batch = none;
  requested_by = text "admin";
  requested_at = 1 ∷ [];
  started_at = none;
  finished_at = none;
  updated_at = 1 ∷ [];
  error = [];
}

abbrev member_at : Text → ℕ → Member
member_at i n = record {
  campaign_id = text "upc_1";
  node_id = i;
  position = n;
  batch_number = n;
  kind = update_agent;
  payload_json = text "{}";
  operation_id = none;
  status = pending;
  error = [];
  started_at = none;
  finished_at = none;
  updated_at = 1 ∷ [];
}

abbrev ready : Store
ready = record {
  nodes = node_at (10 ∷ []) ∷ node_at (11 ∷ []) ∷ [];
  operations = [];
  events = [];
  campaigns = first_campaign ∷ [];
  members = member_at (10 ∷ []) 0 ∷ member_at (11 ∷ []) 1 ∷ [];
}

InOrder-pending : (i : Text) (n : ℕ) → InOrder first_campaign (member_at i n)
InOrder-pending i n = record { behind = λ h k. cc; ahead = λ h. (refl, refl); finished = λ h. cc }

ready-IsBatched : IsBatched (text "upc_1") first_campaign ready
unfolding is_campaign by_member find_row count_rows same
ready-IsBatched = record {
  found = refl;
  keyed = λ node. ground (arith, same_iff (10 ∷ []) node, same_iff (11 ∷ []) node);
  in_order = λ node m h. elim (Bool-cases (same (10 ∷ []) node)) [
    | inl first ↦
        let e : member_at (10 ∷ []) 0 ≡ m = ground arith in rw (sym e) (InOrder-pending _ _)
    | inr later ↦
        let e : member_at (11 ∷ []) 1 ≡ m = ground arith in rw (sym e) (InOrder-pending _ _)
  ];
  unstarted = λ h. refl;
  linked = ((_, refl), ((_, refl), tt));
}

abbrev calls : List (ℕ × CampaignCall)
calls =
    (20, reconciles (λ i. i))
    ∷ (21, operates (looks (10 ∷ [])))
    ∷ (22, cancels_campaign)
    ∷ (23, resumes (λ i. i))
    ∷ []

campaign_run-HasBatches_example :
    HasBatches (text "upc_1") (campaign_run plain (text "upc_1") calls ready)
unfolding trim_space
campaign_run-HasBatches_example =
    campaign_run-HasBatches plain (text "upc_1") calls ready refl (first_campaign, ready-IsBatched)

campaign_run-IsExclusive_example : IsExclusive (campaign_run plain (text "upc_1") calls ready)
unfolding count_rows
campaign_run-IsExclusive_example =
    campaign_run-IsExclusive plain (text "upc_1") calls ready (record { at = λ node. omega arith })

campaign_run-IsLog_example : IsLog (campaign_run plain (text "upc_1") calls ready).events
unfolding count_rows last_sequence
campaign_run-IsLog_example =
    campaign_run-IsLog plain (text "upc_1") calls ready
      (record { at = λ i n k pos le. ground arith })

abbrev offline_node : Eligible
offline_node = record {
  node_name = 10 ∷ [];
  kind = text "update.agent";
  payload = [];
  online = false;
  active = true;
}

abbrev online_node : Eligible
online_node = record {
  node_name = 11 ∷ [];
  kind = text "update.agent";
  payload = [];
  online = true;
  active = true;
}

abbrev two_members : List MemberParams
two_members =
    record {
      node_name = 11 ∷ [];
      position = 0;
      batch_number = 0;
      kind = text "update.agent";
      payload = [];
    }
    ∷ record {
      node_name = 10 ∷ [];
      position = 1;
      batch_number = 1;
      kind = text "update.agent";
      payload = [];
    }
    ∷ []

plan_members-IsPlan_example : IsPlan (offline_node ∷ online_node ∷ []) two_members
unfolding plan_members put_canary_first sort_eligible insert_eligible swap_first put_in_place
    number_members find_row before
plan_members-IsPlan_example =
    plan_members-IsPlan 2 (offline_node ∷ online_node ∷ []) two_members refl

campaign_run-frozen_example :
    get_by_id (text "op_1") (campaign_run plain (text "upc_1") calls idle).operations ≡ some ended
unfolding get_by_id by_id find_row same
campaign_run-frozen_example =
    campaign_run-frozen plain (text "upc_1") (text "op_1") calls idle ended refl refl

batch_count-plan_members_example : batch_count 1 two_members ≤ 2
unfolding plan_members put_canary_first sort_eligible insert_eligible swap_first put_in_place
    number_members find_row before
batch_count-plan_members_example =
    batch_count-plan_members 2 0 (offline_node ∷ online_node ∷ []) two_members (omega arith) refl
