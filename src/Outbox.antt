-- ===== src/Outbox.antt =====
-- The agent's outbox of operation events (internal/agent/operations.go): an event is numbered and kept
-- in the state file before it is sent, and sent until the server answers. The file can be written
-- here, so that the state in memory is the one in the file, and a crash is a list of attempts that
-- ends without an answer.
mod Server
mod Apart
mod Once
mod Examples
mod Reports
use box_fleet.Base.{
  ℕ, suc, ◌+◌, Text, text, same, is_empty, Bool, true, false, not, ◌&&◌, Option, none, some, List,
  [], ◌∷◌, ◌++◌, if◌then◌else◌, length, ◌==◌,
}
use box_fleet.Platform.{Platform}
use box_fleet.Database.{Store, Result, ok, err}
use box_fleet.Operation.Calls.{EventParams}
use box_fleet.Operation.Report.{record_event}

-- NodeOperationAssignment
pub record Assignment : Type 0 where
  pub id : Text
  pub kind : Text
  pub payload : Text
  pub attempt : ℕ
  pub lease_token : Text
  pub lease_expires_at : Text
  pub cancel_requested : Bool

-- NodeOperationEventReport
pub record EventReport : Type 0 where
  pub lease_token : Text
  pub attempt : ℕ
  pub sequence : ℕ
  pub status : Text
  pub phase : Text
  pub message : Text
  pub details : Text
  pub result : Text
  pub error : Text
  pub reported_at : Text

pub record OperationState : Type 0 where
  pub assignment : Assignment
  pub last_sequence : ℕ
  pub phase : Text
  pub pending_event : Option EventReport
  pub checkpoint : Text

-- How a request comes to the server: its clock, the identifier that it makes, and what else it has
-- done since the last request of this report, calls of others and the agent's own renewals.
pub record Arrival : Type 0 where
  pub clock : ℕ
  pub fresh : Text
  pub others : Store → Store

-- One attempt to send, as retry.Do makes them: the request is lost, its answer is lost or asks for a
-- retry (429 or 5xx), or the server answers.
pub data Delivery : Type 0 where
  lost : Delivery
  unanswered answered : Arrival → Delivery

-- What nodeOperationEventHandler makes of a report, for a node and the operation of the URL.
unfoldable pub event_params : Text → Text → EventReport → EventParams
event_params node id e = record {
  node_name = node;
  operation_id = id;
  lease_token = e.lease_token;
  attempt = e.attempt;
  sequence = e.sequence;
  status = e.status;
  phase = e.phase;
  message = e.message;
  details = e.details;
  result = e.result;
  error = e.error;
  reported_at = e.reported_at;
}

abbrev pub accepted_by : {A : Type 0} → Result A × Store → Bool × Store
accepted_by (ok a, s) = (true, s)
accepted_by (err e, s) = (false, s)

-- The request as the server answers it: accepted or not.
unfoldable pub post : Platform → Text → Text → Arrival → EventReport → Store → Bool × Store
unfolding event_params
post p node id a e s =
    accepted_by (record_event p a.clock a.fresh (event_params node id e) (a.others s))

pub data Flushed : Type 0 where
  flushed stopped refused : Flushed

abbrev pub acknowledge : EventReport → OperationState → OperationState
acknowledge e st = record {
  assignment = st.assignment;
  last_sequence = e.sequence;
  phase = e.phase;
  pending_event = none;
  checkpoint = st.checkpoint;
}

module _ (p : Platform) (node : Text) where
  abbrev pub answer :
      EventReport → OperationState → Bool × Store → Flushed × (OperationState × Store)
  answer e st (true, s) = (flushed, (acknowledge e st, s))
  answer e st (false, s) = (refused, (st, s))

  -- The attempts of retry.Do; a list that ends is a cancelled context or a crash.
  unfoldable pub send :
      List Delivery → EventReport → OperationState → Store → Flushed × (OperationState × Store)
  unfolding post
  send [] e st s = (stopped, (st, s))
  send (lost ∷ ds) e st s = send ds e st s
  send (unanswered a ∷ ds) e st s = send ds e st (post p node st.assignment.id a e s).1
  send (answered a ∷ ds) e st s = answer e st (post p node st.assignment.id a e s)

  abbrev pub send_pending :
      List Delivery
      → Option EventReport
      → OperationState
      → Store
      → Flushed × (OperationState × Store)
  send_pending ds none st s = (flushed, (st, s))
  send_pending ds (some e) st s = send ds e st s

  -- flushPendingOperationEventWithRetry
  unfoldable pub flush : List Delivery → OperationState → Store → Flushed × (OperationState × Store)
  flush ds st s = send_pending ds st.pending_event st s

abbrev pub or_time : Text → Text → Text
or_time reported_at now = if is_empty reported_at then now else reported_at

-- The event as it is kept and sent.
abbrev pub numbered : OperationState → Text → EventReport → EventReport
numbered st now e = record {
  lease_token = st.assignment.lease_token;
  attempt = st.assignment.attempt;
  sequence = st.last_sequence + 1;
  status = e.status;
  phase = e.phase;
  message = e.message;
  details = e.details;
  result = e.result;
  error = e.error;
  reported_at = or_time e.reported_at now;
}

abbrev pub keep_pending : Option EventReport → OperationState → OperationState
keep_pending event st = record {
  assignment = st.assignment;
  last_sequence = st.last_sequence;
  phase = st.phase;
  pending_event = event;
  checkpoint = st.checkpoint;
}

abbrev pub take_up : Option EventReport → Text → EventReport → OperationState → OperationState
take_up (some kept) now e st = st
take_up none now e st = keep_pending (some (numbered st now e)) st

module _ (p : Platform) (node : Text) where
  -- reportOperationEventWithRetry, with the time that it reads.
  unfoldable pub report :
      List Delivery
      → Text
      → EventReport
      → OperationState
      → Store
      → Flushed × (OperationState × Store)
  report ds now e st s = flush p node ds (take_up st.pending_event now e st) s

abbrev pub with_assignment : Assignment → OperationState → OperationState
with_assignment a st = record {
  assignment = a;
  last_sequence = st.last_sequence;
  phase = st.phase;
  pending_event = st.pending_event;
  checkpoint = st.checkpoint;
}

abbrev pub new_attempt : Assignment → OperationState → OperationState
new_attempt a st = record {
  assignment = a;
  last_sequence = 0;
  phase = st.phase;
  pending_event = none;
  checkpoint = st.checkpoint;
}

abbrev pub fresh_state : Assignment → OperationState
fresh_state a = record {
  assignment = a;
  last_sequence = 0;
  phase = text "claimed";
  pending_event = none;
  checkpoint = [];
}

abbrev adopt_known : Assignment → OperationState → OperationState
adopt_known a st =
    if same st.assignment.id a.id
    then (if st.assignment.attempt == a.attempt then with_assignment a st else new_attempt a st)
    else fresh_state a

-- The state that RunOperations goes on with when it has claimed an assignment.
unfoldable pub adopt : Assignment → Option OperationState → OperationState
adopt a none = fresh_state a
adopt a (some st) = adopt_known a st
