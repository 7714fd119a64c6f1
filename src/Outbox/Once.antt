-- ===== src/Outbox/Once.antt =====
-- Each reported event is logged once, however often it is sent.
use box_fleet.Base.{
  ℕ, ◌+◌, ◌≡◌, subst, inl, refl, sym, ap, ◌∙◌, Text, Bool, true, false, Option, none, some, List,
  [], ◌∷◌, length, length-append, arith, if◌then◌else◌,
}
use box_fleet.Platform.{Platform}
use box_fleet.Database.{OperationEvent, Store}
use box_fleet.Outbox.{
  Assignment, EventReport, OperationState, Delivery, lost, unanswered, answered, Flushed, flushed,
  stopped, refused, event_params, post, acknowledge, answer, send, send_pending, flush, take_up,
  report,
}
use box_fleet.Outbox.Server.{
  attempt_events, IsCounted, IsApart, IsSentOrNot, WasSent, WasSent-cases, post-WasSent,
}

abbrev pub is_flushed : Flushed → Bool
is_flushed flushed = true
is_flushed stopped = false
is_flushed refused = false

-- What others do between the attempts logs no event of the operation's attempt.
abbrev pub AreApart : Text → ℕ → List Delivery → Type 0
AreApart i n [] = Unit
AreApart i n (lost ∷ ds) = AreApart i n ds
AreApart i n (unanswered a ∷ ds) = IsApart i n a × AreApart i n ds
AreApart i n (answered a ∷ ds) = IsApart i n a × AreApart i n ds

module _ (p : Platform) (node : Text) where
  answer-WasSent :
      (e : EventReport) (st : OperationState) (before : List OperationEvent) (r : Bool × Store)
      → WasSent p
          (event_params node st.assignment.id e)
          before
          r.0
          (attempt_events st.assignment.id e.attempt r.1.events)
        × IsCounted st.assignment.id e.attempt r.1.events
      → WasSent p
          (event_params node st.assignment.id e)
          before
          (is_flushed (answer p node e st r).0)
          (attempt_events st.assignment.id e.attempt (answer p node e st r).1.1.events)
        × IsCounted st.assignment.id e.attempt (answer p node e st r).1.1.events
  answer-WasSent e st before (true, s) h = h
  answer-WasSent e st before (false, s) h = h

  pub send-WasSent :
      (ds : List Delivery) (e : EventReport) (st : OperationState) (before : List OperationEvent)
      (s : Store)
      → AreApart st.assignment.id e.attempt ds
      → e.sequence ≡ length before + 1
      → IsCounted st.assignment.id e.attempt s.events
      → IsSentOrNot p
          (event_params node st.assignment.id e)
          before
          (attempt_events st.assignment.id e.attempt s.events)
      → WasSent p
          (event_params node st.assignment.id e)
          before
          (is_flushed (send p node ds e st s).0)
          (attempt_events st.assignment.id e.attempt (send p node ds e st s).1.1.events)
        × IsCounted st.assignment.id e.attempt (send p node ds e st s).1.1.events
  unfolding send
  send-WasSent [] e st before s apart next counted h = (h, counted)
  send-WasSent (lost ∷ ds) e st before s apart next counted h =
      send-WasSent ds e st before s apart next counted h
  send-WasSent (unanswered a ∷ ds) e st before s apart next counted h =
      let i = st.assignment.id in
      let (was, after) = post-WasSent p node i a e before s apart.0 next counted h in
      let t = (post p node i a e s).1 in
      send-WasSent ds e st before t apart.1 next after
        (WasSent-cases p _ before _ (post p node i a e s).0 was)
  send-WasSent (answered a ∷ ds) e st before s apart next counted h =
      let i = st.assignment.id in
      answer-WasSent e st before (post p node i a e s)
        (post-WasSent p node i a e before s apart.0 next counted h)

  answer-state :
      (e : EventReport) (st : OperationState) (r : Bool × Store)
      → (answer p node e st r).1.0
        ≡ (if is_flushed (answer p node e st r).0 then acknowledge e st else st)
  answer-state e st (true, s) = refl
  answer-state e st (false, s) = refl

  pub send-state :
      (ds : List Delivery) (e : EventReport) (st : OperationState) (s : Store)
      → (send p node ds e st s).1.0
        ≡ (if is_flushed (send p node ds e st s).0 then acknowledge e st else st)
  unfolding send
  send-state [] e st s = refl
  send-state (lost ∷ ds) e st s = send-state ds e st s
  send-state (unanswered a ∷ ds) e st s = send-state ds e st (post p node st.assignment.id a e s).1
  send-state (answered a ∷ ds) e st s = answer-state e st (post p node st.assignment.id a e s)

-- The state agrees with the log of its attempt: all that it counts is logged, and of its pending event,
-- which is the next of that attempt, it is open whether the server has it.
abbrev pub Agrees :
    Platform → Text → Assignment → ℕ → Option EventReport → List OperationEvent → Type 0
Agrees p node a last none log = last ≡ length log
Agrees p node a last (some e) log =
    (e.attempt ≡ a.attempt)
    × (e.sequence ≡ last + 1)
    × ((before : List OperationEvent) × (last ≡ length before)
        × IsSentOrNot p (event_params node a.id e) before log)

abbrev pub IsFitting : Platform → Text → OperationState → List OperationEvent → Type 0
IsFitting p node st log = Agrees p node st.assignment st.last_sequence st.pending_event log

-- The log of the attempt that the state is of.
abbrev pub own_log : OperationState → Store → List OperationEvent
own_log st s = attempt_events st.assignment.id st.assignment.attempt s.events

-- The state agrees with the log, and the log is counted.
abbrev pub IsInStep : Platform → Text → OperationState → Store → Type 0
IsInStep p node st s =
    IsFitting p node st (own_log st s) × IsCounted st.assignment.id st.assignment.attempt s.events

module _ (p : Platform) (node : Text) where
  flushed-IsFitting :
      (e : EventReport) (st : OperationState) (before after : List OperationEvent) (b : Bool)
      → e.attempt ≡ st.assignment.attempt
      → e.sequence ≡ length before + 1
      → st.last_sequence ≡ length before
      → st.pending_event ≡ some e
      → WasSent p (event_params node st.assignment.id e) before b after
      → IsFitting p node (if b then acknowledge e st else st) after
  flushed-IsFitting e st before after true own next counted pending (x, content, h) =
      ground (arith, length-append before (x ∷ []), ap (λ (l : List OperationEvent). length l) h)
  flushed-IsFitting e st before after false own next counted pending h =
      rw pending (own, next ∙ ap (λ n. n + 1) (sym counted), (before, counted, h))

  flushed-IsInStep :
      (e : EventReport) (st : OperationState) (before : List OperationEvent) (t : Store) (b : Bool)
      → e.attempt ≡ st.assignment.attempt
      → e.sequence ≡ length before + 1
      → st.last_sequence ≡ length before
      → st.pending_event ≡ some e
      → WasSent p (event_params node st.assignment.id e) before b (own_log st t)
      → IsCounted st.assignment.id st.assignment.attempt t.events
      → IsInStep p node (if b then acknowledge e st else st) t
  flushed-IsInStep e st before t true own next counted pending was numbers =
      (flushed-IsFitting e st before (own_log st t) true own next counted pending was, numbers)
  flushed-IsInStep e st before t false own next counted pending was numbers =
      (flushed-IsFitting e st before (own_log st t) false own next counted pending was, numbers)

  take_up-IsFitting :
      (o : Option EventReport) (now : Text) (e : EventReport) (st : OperationState)
      (log : List OperationEvent)
      → st.pending_event ≡ o
      → IsFitting p node st log
      → IsFitting p node (take_up o now e st) log
  take_up-IsFitting none now e st log pending h =
      let counted : st.last_sequence ≡ length log = rw pending at h in
      (refl, refl, (log, counted, inl refl))
  take_up-IsFitting (some kept) now e st log pending h = h

  take_up-assignment :
      (o : Option EventReport) (now : Text) (e : EventReport) (st : OperationState)
      → (take_up o now e st).assignment ≡ st.assignment
  take_up-assignment none now e st = refl
  take_up-assignment (some kept) now e st = refl

  flushed-assignment :
      (e : EventReport) (st : OperationState) (b : Bool)
      → (if b then acknowledge e st else st).assignment ≡ st.assignment
  flushed-assignment e st true = refl
  flushed-assignment e st false = refl

  send-IsInStep :
      (ds : List Delivery) (e : EventReport) (st : OperationState) (before : List OperationEvent)
      (s : Store)
      → AreApart st.assignment.id st.assignment.attempt ds
      → e.attempt ≡ st.assignment.attempt
      → e.sequence ≡ length before + 1
      → st.last_sequence ≡ length before
      → st.pending_event ≡ some e
      → IsCounted st.assignment.id st.assignment.attempt s.events
      → IsSentOrNot p (event_params node st.assignment.id e) before (own_log st s)
      → IsInStep p node (send p node ds e st s).1.0 (send p node ds e st s).1.1
  send-IsInStep ds e st before s apart own next counted pending numbers h =
      let i = st.assignment.id in
      let t = (send p node ds e st s).1.1 in
      let b = is_flushed (send p node ds e st s).0 in
      let sent =
        send-WasSent p node ds e st before s (subst (λ n. AreApart i n ds) (sym own) apart) next
          (subst (λ n. IsCounted i n s.events) (sym own) numbers)
          (subst (λ n. IsSentOrNot p (event_params node i e) before (attempt_events i n s.events))
            (sym own) h) in
      let was =
        subst (λ n. WasSent p (event_params node i e) before b (attempt_events i n t.events)) own
          sent.0 in
      rw (send-state p node ds e st s) (
        flushed-IsInStep e st before t b own next counted pending was
          (subst (λ n. IsCounted i n t.events) own sent.1))

  pending_assignment :
      (ds : List Delivery) (o : Option EventReport) (st : OperationState) (s : Store)
      → (send_pending p node ds o st s).1.0.assignment ≡ st.assignment
  pending_assignment ds none st s = refl
  pending_assignment ds (some e) st s =
      ap (λ (t : OperationState). t.assignment) (send-state p node ds e st s)
      ∙ flushed-assignment e st (is_flushed (send p node ds e st s).0)

  flush-IsInStep :
      (ds : List Delivery) (o : Option EventReport) (st : OperationState) (s : Store)
      → st.pending_event ≡ o
      → AreApart st.assignment.id st.assignment.attempt ds
      → IsInStep p node st s
      → IsInStep p node (send_pending p node ds o st s).1.0 (send_pending p node ds o st s).1.1
  flush-IsInStep ds none st s pending apart h = h
  flush-IsInStep ds (some e) st s pending apart (fits, numbers) =
      let v : Agrees p node st.assignment st.last_sequence (some e) (own_log st s) =
        rw pending at fits in
      send-IsInStep ds e st v.2.0 s apart v.0 (v.1 ∙ ap (λ n. n + 1) v.2.1) v.2.1 pending numbers
        v.2.2

  -- One report, however it goes, leaves a state that agrees with the log.
  pub report-IsInStep :
      (ds : List Delivery) (now : Text) (e : EventReport) (st : OperationState) (s : Store)
      → AreApart st.assignment.id st.assignment.attempt ds
      → IsInStep p node st s
      → IsInStep p node (report p node ds now e st s).1.0 (report p node ds now e st s).1.1
  unfolding report flush
  report-IsInStep ds now e st s apart (fits, numbers) =
      let kept = take_up st.pending_event now e st in
      let same_assignment = take_up-assignment st.pending_event now e st in
      flush-IsInStep ds kept.pending_event kept s refl (rw same_assignment apart) (
        rw same_assignment (
          rw same_assignment at
              (take_up-IsFitting st.pending_event now e st (own_log st s) refl fits),
          numbers,
        ))

  pub report-assignment :
      (ds : List Delivery) (now : Text) (e : EventReport) (st : OperationState) (s : Store)
      → (report p node ds now e st s).1.0.assignment ≡ st.assignment
  unfolding report flush
  report-assignment ds now e st s =
      let kept = take_up st.pending_event now e st in
      pending_assignment ds kept.pending_event kept s ∙ take_up-assignment st.pending_event now e st
