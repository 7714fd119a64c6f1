-- ===== src/Outbox/Examples.antt =====
-- The outbox's theorems at reports whose answers are lost.
use box_fleet.Base.{
  ℕ, ◌≡◌, refl, Text, text, same, trim_space, before, find_row, any_row, update_rows, true, false,
  none, some, List, [], ◌∷◌,
}
use box_fleet.Platform.{Platform}
use box_fleet.Database.{Store, ◌>>=◌}
use box_fleet.Operation.Sql.{
  cancel_where, cancel_set, resume_set, get_by_id, by_id, get_event, by_sequence, last_sequence,
  append_event, same_event, update_one, renew_where, lease_held, apply_set,
}
use box_fleet.Operation.Validate.{nullable, normalize_object, event_status, valid_phase}
use box_fleet.Operation.Calls.{get_node, view}
use box_fleet.Operation.Methods.{try_one, request_cancel, renew_lease}
use box_fleet.Operation.Report.{
  record_event, check_report, reported, record_tx, log_or_replay, accept_event, new_event,
}
use box_fleet.Operation.Steps.{cancels, renews, run, step}
use box_fleet.Operation.Steps
use box_fleet.Operation.Samples.{plain, working, history}
use box_fleet.Outbox.{
  Assignment, EventReport, OperationState, Arrival, Delivery, lost, unanswered, answered, Flushed,
  event_params, post, send, flush, numbered, report, adopt, fresh_state,
}
use box_fleet.Outbox.Apart.{attempt_events-run}
use box_fleet.Outbox.Server.{IsApart, attempt_events, WasAdded}
use box_fleet.Outbox.Once.{IsFitting, IsInStep, is_flushed, own_log}
use box_fleet.Outbox.Reports.{
  Call, run_reports, run_reports-IsFitting, report-logged, adopt-IsFitting,
}

-- A platform that can read a time.
abbrev timed : Platform
timed = record plain { parse_time = λ t. some 0 }

abbrev arrival : Arrival
arrival = record { clock = 20; fresh = text "ev_1"; others = λ s. s }

-- Meanwhile an administrator asks to cancel the operation, and the agent renews its lease.
abbrev meanwhile : List (ℕ × Steps.Call)
meanwhile =
    (24, cancels (text "op_1")) ∷ (25, renews (text "edge") (text "op_1") (text "bfl_s") 1) ∷ []

abbrev later : Arrival
later = record { clock = 30; fresh = text "ev_2"; others = λ s. run timed meanwhile s }

later-IsApart : IsApart (text "op_1") 1 later
later-IsApart s = attempt_events-run timed (text "op_1") 1 meanwhile s (tt, (tt, tt))

abbrev retried : List Delivery
retried = lost ∷ unanswered arrival ∷ answered later ∷ []

abbrev assignment : Assignment
assignment = record {
  id = text "op_1";
  kind = text "logs.collect";
  payload = [];
  attempt = 1;
  lease_token = text "bfl_s";
  lease_expires_at = [];
  cancel_requested = false;
}

abbrev event : Text → EventReport
event status = record {
  lease_token = [];
  attempt = 0;
  sequence = 0;
  status = status;
  phase = status;
  message = [];
  details = [];
  result = [];
  error = [];
  reported_at = [];
}

abbrev claimed_state : OperationState
claimed_state = fresh_state assignment

abbrev two_calls : List Call
two_calls =
    record { deliveries = retried; now = text "1"; event = event (text "running") }
    ∷ record {
      deliveries = unanswered later ∷ [];
      now = text "2";
      event = event (text "succeeded");
    }
    ∷ []

run_reports-IsFitting_example :
    IsInStep timed
      (text "edge")
      (run_reports timed (text "edge") two_calls claimed_state working).0
      (run_reports timed (text "edge") two_calls claimed_state working).1
unfolding attempt_events last_sequence
run_reports-IsFitting_example =
    run_reports-IsFitting timed (text "edge") two_calls claimed_state working
      ((λ s. refl, (later-IsApart, tt)), ((later-IsApart, tt), tt)) (refl, refl)

abbrev reported_once : Flushed × (OperationState × Store)
reported_once =
    report timed (text "edge") retried (text "1") (event (text "running")) claimed_state working

reported_once-flushed : is_flushed reported_once.0 ≡ true
unfolding report flush send post event_params record_event check_report reported record_tx
    log_or_replay accept_event new_event get_node get_by_id by_id find_row update_rows any_row same
    before trim_space get_event by_sequence last_sequence append_event same_event update_one
    renew_where lease_held apply_set nullable try_one run step request_cancel renew_lease
    cancel_where cancel_set resume_set normalize_object event_status valid_phase view ◌>>=◌
reported_once-flushed = refl

attempt_events-run_example :
    attempt_events (text "op_1") 2 (run timed history working).events
    ≡ attempt_events (text "op_1") 2 working.events
unfolding same
attempt_events-run_example =
    attempt_events-run timed (text "op_1") 2 history working (tt, (tt, (refl, (tt, tt))))

report-logged_example :
    WasAdded timed
      (event_params
        (text "edge")
        (text "op_1")
        (numbered claimed_state (text "1") (event (text "running"))))
      (own_log claimed_state working)
      (own_log claimed_state reported_once.1.1)
    × (reported_once.1.0.last_sequence ≡ 1)
    × (reported_once.1.0.pending_event ≡ none)
unfolding attempt_events last_sequence
report-logged_example =
    report-logged timed (text "edge") retried (text "1") (event (text "running")) claimed_state
      working (λ s. refl, (later-IsApart, tt)) refl (refl, refl) reported_once-flushed

adopt-IsFitting_example : IsFitting plain (text "edge") (adopt assignment (some claimed_state)) []
unfolding same
adopt-IsFitting_example =
    adopt-IsFitting plain (text "edge") assignment claimed_state [] [] refl (λ e. refl) (λ e. refl)
