-- ===== src/Outbox/Reports.antt =====
-- Reports of events one after another: what the server has logged after them.
use box_fleet.Base.{
  ℕ, ◌+◌, ◌≡◌, refl, ap, ◌∙◌, sym, subst, Text, same, same_iff, true, false, ◌&&◌, Option, none,
  some, List, [], ◌∷◌, length, arith, Bool-cases, inl, inr, ◌==◌,
}
use box_fleet.Platform.{Platform}
use box_fleet.Database.{OperationEvent, Store}
use box_fleet.Outbox.{
  Assignment, EventReport, OperationState, Delivery, acknowledge, event_params, send, send_pending,
  flush, numbered, keep_pending, take_up, report, adopt,
}
use box_fleet.Outbox.Server.{IsSentOrNot, WasAdded}
use box_fleet.Outbox.Once.{
  AreApart, Agrees, IsFitting, IsInStep, own_log, is_flushed, report-IsInStep, send-WasSent,
  send-state, report-assignment,
}

-- A report that an executor makes: how its attempts go, its time, and its event.
pub record Call : Type 0 where
  pub deliveries : List Delivery
  pub now : Text
  pub event : EventReport

abbrev pub AllApart : Text → ℕ → List Call → Type 0
AllApart i n [] = Unit
AllApart i n (c ∷ cs) = AreApart i n c.deliveries × AllApart i n cs

module _ (p : Platform) (node : Text) where
  unfoldable pub run_reports : List Call → OperationState → Store → OperationState × Store
  unfolding report
  run_reports [] st s = (st, s)
  run_reports (c ∷ cs) st s =
      let after = (report p node c.deliveries c.now c.event st s).1 in
      run_reports cs after.0 after.1

  -- If the state agrees with the log that RecordNodeOperationEvent keeps of its attempt, which has as
  -- many events as its last number, then so it does after any reports, however their requests and
  -- answers are lost, if what others do meanwhile logs no event of the attempt: all that is counted
  -- is logged, and of the pending event it is open whether it is logged, and nothing else is.
  pub run_reports-IsFitting :
      (cs : List Call) (st : OperationState) (s : Store)
      → AllApart st.assignment.id st.assignment.attempt cs
      → IsInStep p node st s
      → IsInStep p node (run_reports cs st s).0 (run_reports cs st s).1
  unfolding run_reports
  run_reports-IsFitting [] st s apart h = h
  run_reports-IsFitting (c ∷ cs) st s apart h =
      let after = (report p node c.deliveries c.now c.event st s).1 in
      let same_assignment = report-assignment p node c.deliveries c.now c.event st s in
      run_reports-IsFitting cs after.0 after.1
        (subst (λ a. AllApart a.id a.attempt cs) (sym same_assignment) apart.1)
        (report-IsInStep p node c.deliveries c.now c.event st s apart.0 h)

  taken_up :
      (ds : List Delivery) (o : Option EventReport) (now : Text) (e : EventReport)
      (st : OperationState) (s : Store)
      → o ≡ none
      → send_pending p node ds (take_up o now e st).pending_event (take_up o now e st) s
        ≡ send p node ds (numbered st now e) (keep_pending (some (numbered st now e)) st) s
  taken_up ds none now e st s empty = refl
  taken_up ds (some kept) now e st s empty = cc

  report_taken_up :
      (ds : List Delivery) (now : Text) (e : EventReport) (st : OperationState) (s : Store)
      → st.pending_event ≡ none
      → report p node ds now e st s
        ≡ send p node ds (numbered st now e) (keep_pending (some (numbered st now e)) st) s
  unfolding report flush
  report_taken_up ds now e st s empty = taken_up ds st.pending_event now e st s empty

  sent_state :
      (ds : List Delivery) (e : EventReport) (st : OperationState) (s : Store)
      → is_flushed (send p node ds e st s).0 ≡ true
      → (send p node ds e st s).1.0 ≡ acknowledge e st
  sent_state ds e st s ended = let state = send-state p node ds e st s in state ∙ rw ended refl

  -- A report that ends with the server's acceptance, from a state that agrees with the log of its
  -- attempt and has no pending event, has added one entry to that log, and nothing else, however many
  -- attempts it took and whichever answers were lost, if what others did meanwhile logged no event of
  -- the attempt. The entry is the report, numbered next, with its content in the normal form of
  -- RecordNodeOperationEvent. The state counts the event.
  pub report-logged :
      (ds : List Delivery) (now : Text) (e : EventReport) (st : OperationState) (s : Store)
      → AreApart st.assignment.id st.assignment.attempt ds
      → st.pending_event ≡ none
      → IsInStep p node st s
      → is_flushed (report p node ds now e st s).0 ≡ true
      → WasAdded p
          (event_params node st.assignment.id (numbered st now e))
          (own_log st s)
          (own_log st (report p node ds now e st s).1.1)
        × ((report p node ds now e st s).1.0.last_sequence ≡ st.last_sequence + 1)
        × ((report p node ds now e st s).1.0.pending_event ≡ none)
  report-logged ds now e st s apart empty (fits, numbers) ended =
      let sent = report_taken_up ds now e st s empty in
      let kept = keep_pending (some (numbered st now e)) st in
      let counted : st.last_sequence ≡ length (own_log st s) = rw empty at fits in
      let flushed = rw sent at ended in
      let was =
        send-WasSent p node ds (numbered st now e) kept (own_log st s) s apart
          (ap (λ n. n + 1) counted) numbers (inl refl) in
      let state = sent_state ds (numbered st now e) kept s flushed in
      let added = rw flushed at was.0 in
      rw sent (added, ap (λ t. t.last_sequence) state, ap (λ t. t.pending_event) state)

resumed_fits :
    (p : Platform) (node : Text) (a b : Assignment) (last : ℕ) (o : Option EventReport)
    (log : List OperationEvent)
    → a.id ≡ b.id
    → a.attempt ≡ b.attempt
    → Agrees p node a last o log
    → Agrees p node b last o log
resumed_fits p node a b last none log h k v = v
resumed_fits p node a b last (some e) log h k (own, next, (before, counted, sent)) = (
  own ∙ k,
  next,
  (before, counted, subst (λ i. IsSentOrNot p (event_params node i e) before log) h sent),
)

-- The state that a claim is gone on with agrees with the log of its attempt: the same log for the
-- attempt that the state is of, and an empty one for another.
pub adopt-IsFitting :
    (p : Platform) (node : Text) (a : Assignment) (st : OperationState)
    (old log : List OperationEvent)
    → IsFitting p node st old
    → (same st.assignment.id a.id && (st.assignment.attempt == a.attempt) ≡ true → log ≡ old)
    → (same st.assignment.id a.id && (st.assignment.attempt == a.attempt) ≡ false → log ≡ [])
    → IsFitting p node (adopt a (some st)) log
unfolding adopt
adopt-IsFitting p node a st old log h same_log no_log =
    elim (Bool-cases (same st.assignment.id a.id)) [
      | inl known ↦ elim (Bool-cases (st.assignment.attempt == a.attempt)) [
        | inl resumed ↦
            let e : log ≡ old = same_log (rw (known, resumed) refl) in
            let id : st.assignment.id ≡ a.id = ground (arith, same_iff st.assignment.id a.id) in
            let number : st.assignment.attempt ≡ a.attempt = ground arith in
            rw (known, resumed, e)
              (resumed_fits p node st.assignment a st.last_sequence st.pending_event old id number
                h)
        | inr again ↦
            let e : log ≡ [] = no_log (rw (known, again) refl) in rw (known, again, e) refl
      ]
      | inr other ↦ let e : log ≡ [] = no_log (rw other refl) in rw (other, e) refl
    ]
