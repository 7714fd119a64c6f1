-- ===== src/Operation/Examples.antt =====
-- The theorems of the component at a node with one operation.
use box_fleet.Base.{
  ◌≡◌, refl, text, true, false, none, some, [], ◌∷◌, arith, find_row, update_rows, any_row,
  count_rows, same, before, trim_space, ◌⊎◌,
}
use box_fleet.Database.{
  Failure, parse_kind, Operation, OperationEvent, Node, ok, err, active_operation, ◌>>=◌,
}
use box_fleet.Operation.Sql.{
  by_id, get_by_id, by_key, get_by_key, by_sequence, get_event, last_sequence, append_event,
  update_one, renew_where, lease_held, apply_set, same_event, claim_set, claim_where, expire_where,
  get_active, active_on,
}
use box_fleet.Operation.Validate.{
  all_in, nullable, normalize_object, normalize_timestamp, normalize_capabilities,
  validate_capabilities, required_capabilities, has_text, has_capabilities,
}
use box_fleet.Operation.Calls.{get_node, check_request, view}
use box_fleet.Operation.Methods.{create_operation, try_one, claim_operation}
use box_fleet.Operation.Report.{record_event, record_tx, new_event, applied, same_content}
use box_fleet.Operation.Steps.{run}
use box_fleet.Operation.OneActive.{IsExclusive, run-IsExclusive}
use box_fleet.Operation.Frozen.{run-frozen, HasLater, run-IsLater}
use box_fleet.Operation.Stuck.{HasCancelling, run-HasCancelling, create_operation-active}
use box_fleet.Operation.Log.{IsLog, run-IsLog}
use box_fleet.Operation.Lease.{IsLeased, claim_operation-IsLeased}
use box_fleet.Operation.Replay.{record_tx-replay, record_tx-cases, IsAccepted}
use box_fleet.Operation.Recorded.{IsRecorded, record_event-IsRecorded}
use box_fleet.Operation.Samples.{
  done, plain, empty, agent, history, leased, busy, ended, idle, afterwards, again, request, report,
  working, after_report, hashed, taken_view, before_claim, after_claim,
}

run-IsExclusive_example : IsExclusive (run plain history empty)
run-IsExclusive_example =
    run-IsExclusive plain history empty (record { at = λ node. unfold count_rows in omega arith })

run-IsLog_example : IsLog (run plain history empty).events
run-IsLog_example =
    run-IsLog plain history empty
      (record { at = λ i n k pos le. unfold last_sequence in absurd (omega arith) })

run-frozen_example : get_by_id (text "op_1") (run plain history idle).operations ≡ some ended
unfolding get_by_id by_id find_row same
run-frozen_example = run-frozen (text "op_1") plain history idle ended refl refl

run-IsLater_example : HasLater (text "op_1") leased (run plain history busy)
unfolding get_by_id by_id find_row same
run-IsLater_example = run-IsLater plain history busy (text "op_1") leased refl

run-HasCancelling_example : HasCancelling (text "op_1") (150 ∷ []) (run plain afterwards busy)
unfolding get_by_id by_id find_row same before
run-HasCancelling_example =
    run-HasCancelling (text "op_1") (150 ∷ []) plain afterwards busy (refl, (refl, tt))
      (leased, refl, record { status = refl; requested = refl; lease = refl })

checked : check_request plain again busy ≡ (ok request, busy)
unfolding check_request get_node parse_kind normalize_object normalize_timestamp
    normalize_capabilities validate_capabilities required_capabilities has_text same before
    trim_space find_row ◌>>=◌
checked = refl

create_operation-active_example :
    create_operation plain 60 (text "op_2") again busy ≡ (err active_operation, busy)
unfolding get_by_id by_id get_by_key by_key find_row same
create_operation-active_example =
    create_operation-active plain 60 (text "op_2") (text "op_1") again request busy leased checked
      refl refl refl refl

accepted :
    record_tx plain 40 (text "ev_1") report working
    ≡ (ok (applied plain 40 report (record leased { cancel_requested = false })), after_report)
unfolding record_tx get_by_id by_id find_row update_rows any_row same before trim_space get_event
    by_sequence last_sequence append_event same_event new_event update_one renew_where lease_held
    apply_set nullable try_one ◌>>=◌
accepted = refl

record_tx-replay_example :
    (x : Operation) × (record_tx plain 70 (text "ev_9") report after_report ≡ (ok x, after_report))
record_tx-replay_example =
    record_tx-replay plain 40 (text "ev_1") report 70 (text "ev_9")
      (applied plain 40 report (record leased { cancel_requested = false })) working after_report
      accepted

record_tx-cases_example :
    (current : Operation) × (get_by_id (text "op_1") working.operations ≡ some current)
    × (same current.node_id (text "node_1") ≡ true)
    × (((e : OperationEvent) × (get_event (text "op_1") 1 1 working.events ≡ some e)
          × (same_content e report ≡ true)
          × (after_report ≡ working))
        ⊎ ((get_event (text "op_1") 1 1 working.events ≡ none)
            × IsAccepted plain 40 (text "ev_1") report current working after_report))
record_tx-cases_example =
    record_tx-cases plain 40 (text "ev_1") report
      (applied plain 40 report (record leased { cancel_requested = false })) working after_report
      accepted

claimed :
    claim_operation hashed 40 (text "s") agent before_claim
    ≡ (ok (some (taken_view, text "bfl_s")), after_claim)
unfolding claim_operation claim_set get_node get_active active_on view claim_where expire_where
    by_id find_row update_rows update_one try_one nullable has_text has_capabilities
    normalize_capabilities same before trim_space all_in ◌>>=◌
claimed = refl

claim_operation-IsLeased_example :
    (n : Node) × (get_node (text "edge") before_claim ≡ (ok n, before_claim))
    × IsLeased hashed 40 n.id taken_view (text "bfl_s") after_claim
unfolding nullable trim_space
claim_operation-IsLeased_example =
    claim_operation-IsLeased hashed 40 (λ t. (7 ∷ [], refl)) (text "s") agent taken_view
      (text "bfl_s") before_claim after_claim claimed

record_event-IsRecorded_example :
    ((e : Failure) × (record_event plain 40 (text "ev_1") done working ≡ (err e, working)))
    ⊎ IsRecorded plain done working.events
        (record_event plain 40 (text "ev_1") done working).1.events
record_event-IsRecorded_example = record_event-IsRecorded plain 40 (text "ev_1") done working
