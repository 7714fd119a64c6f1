-- ===== src/Operation/Recorded.antt =====
-- What a call of RecordNodeOperationEvent did to the log, read off its result.
mod Quiet
mod Inverse
use box_fleet.Base.{
  ℕ, ◌+◌, ◌≡◌, ◌⊎◌, refl, sym, ap, ◌∙◌, Text, Bool, true, false, Option, none, some, List, [], ◌∷◌,
  ◌++◌, arith, trim_space, find_row-holds, same, same_iff, inl, inr, is_empty, not, ◌&&◌, leb,
  length, ◌==◌,
}
use box_fleet.Platform.{Platform}
use box_fleet.Database.{
  Operation, OperationEvent, Store, Failure, Status, Result, ok, err, M, ◌>>=◌, guard, or_fail,
  return, with_tx, same_status,
}
use box_fleet.Operation.Sql.{get_event, last_sequence, by_sequence}
use box_fleet.Operation.Validate.{event_status, normalize_object}
use box_fleet.Operation.Calls.{EventParams, view}
use box_fleet.Operation.Report.{
  Report, record_event, check_report, record_tx, new_event, same_content, reported,
}
use box_fleet.Operation.Replay.{record_tx-cases}
use box_fleet.Operation.Recorded.Inverse.{
  bind_ok, bind_cases, or_fail_ok, return_ok, with_tx_ok, with_tx_err,
}
use box_fleet.Operation.Recorded.Quiet.{check_report-IsQuiet, view-IsQuiet}

-- The report is the request in its normal form.
pub record IsReportOf (p : Platform) (params : EventParams) (q : Report) : Type 0 where
  pub operation_id : q.operation_id ≡ params.operation_id
  pub attempt : q.attempt ≡ params.attempt
  pub sequence : q.sequence ≡ params.sequence
  pub status : event_status params.status ≡ some q.status
  pub phase : q.phase ≡ params.phase
  pub message : q.message ≡ trim_space params.message
  pub error : q.error ≡ trim_space params.error
  pub details : normalize_object p params.details ≡ some q.details_json
  pub result : normalize_object p params.result ≡ some q.result_json

check_report-IsReportOf :
    (p : Platform) (now : ℕ) (params : EventParams) (s t : Store) (q : Report)
    → check_report p now params s ≡ (ok q, t)
    → IsReportOf p params q
unfolding check_report
check_report-IsReportOf p now params s t q h0 =
    let (node, s1, k0, h1) = bind_ok _ _ _ _ _ h0 in
    let (u1, s2, k1, h2) = bind_ok _ _ _ _ _ h1 in
    let (status, s3, k2, h3) = bind_ok _ _ _ _ _ h2 in
    let (u2, s4, k3, h4) = bind_ok _ _ _ _ _ h3 in
    let (u3, s5, k4, h5) = bind_ok _ _ _ _ _ h4 in
    let (u4, s6, k5, h6) = bind_ok _ _ _ _ _ h5 in
    let (details, s7, k6, h7) = bind_ok _ _ _ _ _ h6 in
    let (result, s8, k7, h8) = bind_ok _ _ _ _ _ h7 in
    let (at, s9, k8, h9) = bind_ok _ _ _ _ _ h8 in
    let e = return_ok _ _ _ _ h9 in
    record {
      operation_id = sym (ap (λ (r : Report). r.operation_id) e);
      attempt = sym (ap (λ (r : Report). r.attempt) e);
      sequence = sym (ap (λ (r : Report). r.sequence) e);
      status = or_fail_ok _ _ _ _ _ k2 ∙ ap (λ (r : Report). some r.status) e;
      phase = sym (ap (λ (r : Report). r.phase) e);
      message = sym (ap (λ (r : Report). r.message) e);
      error = sym (ap (λ (r : Report). r.error) e);
      details = or_fail_ok _ _ _ _ _ k6 ∙ ap (λ (r : Report). some r.details_json) e;
      result = or_fail_ok _ _ _ _ _ k7 ∙ ap (λ (r : Report). some r.result_json) e;
    }

-- The logged event has the content of the request, in its normal form: not the time it was reported
-- at, nor the lease token.
pub record IsEntryOf (p : Platform) (params : EventParams) (x : OperationEvent) : Type 0 where
  pub operation_id : x.operation_id ≡ params.operation_id
  pub attempt : x.attempt ≡ params.attempt
  pub sequence : x.sequence ≡ params.sequence
  pub status : event_status params.status ≡ some x.status
  pub phase : x.phase ≡ params.phase
  pub message : x.message ≡ trim_space params.message
  pub error : x.error ≡ trim_space params.error
  pub details : normalize_object p params.details ≡ some x.details_json
  pub result : normalize_object p params.result ≡ some x.result_json

-- The event was the next of its attempt, and is logged now.
pub record IsNew (p : Platform) (params : EventParams) (es after : List OperationEvent)
    : Type 0 where
  pub entry : OperationEvent
  pub content : IsEntryOf p params entry
  pub next : params.sequence ≡ last_sequence params.operation_id params.attempt es + 1
  pub log : after ≡ es ++ (entry ∷ [])

-- The event was logged before.
pub record IsKnown (p : Platform) (params : EventParams) (es after : List OperationEvent)
    : Type 0 where
  pub entry : OperationEvent
  pub content : IsEntryOf p params entry
  pub there : get_event params.operation_id params.attempt params.sequence es ≡ some entry
  pub log : after ≡ es

new_event-IsEntryOf :
    (p : Platform) (now : ℕ) (fresh : Text) (params : EventParams) (q : Report)
    → IsReportOf p params q
    → IsEntryOf p params (new_event p now fresh q)
unfolding new_event
new_event-IsEntryOf p now fresh params q v = record {
  operation_id = v.operation_id;
  attempt = v.attempt;
  sequence = v.sequence;
  status = v.status;
  phase = v.phase;
  message = v.message;
  error = v.error;
  details = v.details;
  result = v.result;
}

same_status_sound : (a b : Status) → same_status a b ≡ true → a ≡ b
same_status_sound a b h = ground arith

known-IsEntryOf :
    (p : Platform) (params : EventParams) (q : Report) (es : List OperationEvent)
    (x : OperationEvent)
    → IsReportOf p params q
    → get_event q.operation_id q.attempt q.sequence es ≡ some x
    → same_content x q ≡ true
    → IsEntryOf p params x
unfolding get_event by_sequence
known-IsEntryOf p params q es x v there c =
    let found = find_row-holds (by_sequence q.operation_id q.attempt q.sequence) es x there in
    let status : x.status ≡ q.status = same_status_sound x.status q.status (ground arith) in
    let id : x.operation_id ≡ q.operation_id =
      ground (arith, same_iff x.operation_id q.operation_id) in
    let number : x.attempt ≡ q.attempt = ground arith in
    let place : x.sequence ≡ q.sequence = ground arith in
    let phase : x.phase ≡ q.phase = ground (arith, same_iff x.phase q.phase) in
    let message : x.message ≡ q.message = ground (arith, same_iff x.message q.message) in
    let error : x.error ≡ q.error = ground (arith, same_iff x.error q.error) in
    let details : x.details_json ≡ q.details_json =
      ground (arith, same_iff x.details_json q.details_json) in
    let result : x.result_json ≡ q.result_json =
      ground (arith, same_iff x.result_json q.result_json) in
    record {
      operation_id = id ∙ v.operation_id;
      attempt = number ∙ v.attempt;
      sequence = place ∙ v.sequence;
      status = v.status ∙ ap some (sym status);
      phase = phase ∙ v.phase;
      message = message ∙ v.message;
      error = error ∙ v.error;
      details = v.details ∙ ap some (sym details);
      result = v.result ∙ ap some (sym result);
    }

abbrev pub IsRecorded : Platform → EventParams → List OperationEvent → List OperationEvent → Type 0
IsRecorded p params es after = IsNew p params es after ⊎ IsKnown p params es after

module _ (p : Platform) (now : ℕ) (fresh : Text) (params : EventParams) where
  record_tx-IsRecorded :
      (q : Report) (row : Operation) (s t : Store)
      → IsReportOf p params q
      → record_tx p now fresh q s ≡ (ok row, t)
      → IsRecorded p params s.events t.events
  record_tx-IsRecorded q row s t v h =
      let (current, found, on_node, cases) = record_tx-cases p now fresh q row s t h in
      elim cases [
        | inl (x, there, c, same_store) ↦ inr (record {
          entry = x;
          content = known-IsEntryOf p params q s.events x v there c;
          there = rw (sym v.operation_id, sym v.attempt, sym v.sequence) there;
          log = ap (λ (u : Store). u.events) same_store;
        })
        | inr (unknown, accepted) ↦ inl (record {
          entry = new_event p now fresh q;
          content = new_event-IsEntryOf p now fresh params q v;
          next = rw (sym v.operation_id, sym v.attempt, sym v.sequence) accepted.next;
          log = ap (λ (u : Store). u.events) accepted.after;
        })
      ]

  after_check :
      (q : Report) (s : Store)
      → IsReportOf p params q
      → ((e : Failure) × ((with_tx (record_tx p now fresh q) >>= view p) s ≡ (err e, s)))
        ⊎ IsRecorded p params s.events ((with_tx (record_tx p now fresh q) >>= view p) s).1.events
  after_check q s v = elim (bind_cases (with_tx (record_tx p now fresh q)) (view p) s) [
    | inl (e, t, k, h) ↦ inl (e, rw (with_tx_err (record_tx p now fresh q) s e t k) at h)
    | inr (row, t, k, h) ↦ inr (
        rw (h, (view-IsQuiet p row).at t)
          (record_tx-IsRecorded q row s t v (with_tx_ok (record_tx p now fresh q) s row t k)))
  ]

  -- A call of RecordNodeOperationEvent either fails and changes nothing, or the event is in the log
  -- after it: appended with the next number of its attempt, or there before under its number, the log
  -- left as it was; and the entry has the content of the request, with its message and its error
  -- trimmed and its JSON in its normal form.
  pub record_event-IsRecorded :
      (s : Store)
      → ((e : Failure) × (record_event p now fresh params s ≡ (err e, s)))
        ⊎ IsRecorded p params s.events (record_event p now fresh params s).1.events
  unfolding record_event
  record_event-IsRecorded s =
      let quiet = (check_report-IsQuiet p now params).at s in
      elim (bind_cases (check_report p now params)
        (λ q. with_tx (record_tx p now fresh q) >>= view p) s) [
          | inl (e, t, k, h) ↦
              let same_store : t ≡ s = sym (ap (λ r. r.1) k) ∙ quiet in inl (e, rw same_store at h)
          | inr (q, t, k, h) ↦
              let same_store : t ≡ s = sym (ap (λ r. r.1) k) ∙ quiet in
              let v = check_report-IsReportOf p now params s t q k in
              let here = rw same_store at h in rw here (after_check q s v)
        ]
