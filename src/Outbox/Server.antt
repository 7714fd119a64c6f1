-- ===== src/Outbox/Server.antt =====
-- What one request does to the server's log of the attempt.
use box_fleet.Base.{
  ℕ, ◌+◌, ◌≤◌, ◌≡◌, ◌⊎◌, refl, sym, ap, ◌∙◌, Text, same, same_iff, Bool, true, false, ◌&&◌, some,
  List, [], ◌∷◌, ◌++◌, length, length-append, arith, inl, inr, find_row, ◌==◌, if◌then◌else◌,
}
use box_fleet.Platform.{Platform}
use box_fleet.Database.{OperationEvent, Store, Result, ok, err}
use box_fleet.Operation.Sql.{get_event, by_sequence, last_sequence}
use box_fleet.Operation.Calls.{EventParams}
use box_fleet.Operation.Report.{record_event}
use box_fleet.Operation.Log.{last_sequence-append_own}
use box_fleet.Operation.Recorded.{IsEntryOf, IsNew, IsKnown, IsRecorded, record_event-IsRecorded}
use box_fleet.Outbox.{EventReport, Arrival, event_params, accepted_by, post}

-- The events of one attempt of an operation.
unfoldable pub attempt_events : Text → ℕ → List OperationEvent → List OperationEvent
attempt_events i n [] = []
attempt_events i n (e ∷ es) =
    let rest = attempt_events i n es in
    if same e.operation_id i && (e.attempt == n) then e ∷ rest else rest

-- The attempt has as many events as its last number says.
abbrev pub IsCounted : Text → ℕ → List OperationEvent → Type 0
IsCounted i n es = last_sequence i n es ≡ length (attempt_events i n es)

-- What others do logs no event of the attempt.
abbrev pub IsApart : Text → ℕ → Arrival → Type 0
IsApart i n a = (s : Store) → attempt_events i n (a.others s).events ≡ attempt_events i n s.events

own_last :
    (i : Text) (n : ℕ) (es : List OperationEvent)
    → last_sequence i n (attempt_events i n es) ≡ last_sequence i n es
unfolding attempt_events last_sequence
own_last i n [] = refl
own_last i n (e ∷ es) = ground (arith, own_last i n es)

apart-IsCounted :
    (i : Text) (n : ℕ) (es fs : List OperationEvent)
    → attempt_events i n fs ≡ attempt_events i n es
    → IsCounted i n es
    → IsCounted i n fs
apart-IsCounted i n es fs h c =
    sym (own_last i n fs)
    ∙ (ap (last_sequence i n) h
        ∙ (own_last i n es ∙ (c ∙ ap (λ (l : List OperationEvent). length l) (sym h))))

attempt_events-append :
    (i : Text) (n : ℕ) (es : List OperationEvent) (x : OperationEvent)
    → x.operation_id ≡ i
    → x.attempt ≡ n
    → attempt_events i n (es ++ (x ∷ [])) ≡ attempt_events i n es ++ (x ∷ [])
unfolding attempt_events
attempt_events-append i n [] x h k = ground (arith, same_iff x.operation_id i)
attempt_events-append i n (e ∷ es) x h k = ground (arith, attempt_events-append i n es x h k)

append-IsCounted :
    (i : Text) (n : ℕ) (es : List OperationEvent) (x : OperationEvent)
    → x.operation_id ≡ i
    → x.attempt ≡ n
    → x.sequence ≡ last_sequence i n es + 1
    → IsCounted i n es
    → IsCounted i n (es ++ (x ∷ []))
append-IsCounted i n es x h k next c =
    let own = last_sequence-append_own es x in
    rw (attempt_events-append i n es x h k, length-append (attempt_events i n es) (x ∷ []))
      (let last = rw (h, k) at own in ground arith)

get_event-last :
    (i : Text) (n k : ℕ) (es : List OperationEvent) (x : OperationEvent)
    → get_event i n k es ≡ some x
    → k ≤ last_sequence i n es
unfolding get_event by_sequence last_sequence find_row
get_event-last i n k [] x h = ground arith
get_event-last i n k (e ∷ es) x h = ground (arith, get_event-last i n k es x)

-- The event stands at the end of the log, once.
abbrev pub WasAdded : Platform → EventParams → List OperationEvent → List OperationEvent → Type 0
WasAdded p params before after =
    (x : OperationEvent) × (IsEntryOf p params x) × (after ≡ before ++ (x ∷ []))

-- The log before an event, or that log with the event at its end.
abbrev pub IsSentOrNot : Platform → EventParams → List OperationEvent → List OperationEvent → Type 0
IsSentOrNot p params before after = (after ≡ before) ⊎ WasAdded p params before after

abbrev pub WasSent :
    Platform → EventParams → List OperationEvent → Bool → List OperationEvent → Type 0
WasSent p params before true after = WasAdded p params before after
WasSent p params before false after = IsSentOrNot p params before after

pub WasSent-cases :
    (p : Platform) (params : EventParams) (before after : List OperationEvent) (b : Bool)
    → WasSent p params before b after
    → IsSentOrNot p params before after
WasSent-cases p params before after true h = inr h
WasSent-cases p params before after false h = h

WasAdded-WasSent :
    (p : Platform) (params : EventParams) (before after : List OperationEvent) (b : Bool)
    → WasAdded p params before after
    → WasSent p params before b after
WasAdded-WasSent p params before after true h = h
WasAdded-WasSent p params before after false h = inr h

module _ (p : Platform) (node i : Text) (a : Arrival) (e : EventReport) where
  accepted_by-store : {A : Type 0} (r : Result A × Store) → (accepted_by r).1 ≡ r.1
  accepted_by-store (ok v, t) = refl
  accepted_by-store (err x, t) = refl

  new_added :
      (before es after : List OperationEvent)
      → e.sequence ≡ length before + 1
      → IsCounted i e.attempt es
      → IsSentOrNot p (event_params node i e) before (attempt_events i e.attempt es)
      → IsNew p (event_params node i e) es after
      → WasAdded p (event_params node i e) before (attempt_events i e.attempt after)
        × IsCounted i e.attempt after
  unfolding event_params
  new_added before es after next counted h v =
      let appended =
        ap (attempt_events i e.attempt) v.log
        ∙ attempt_events-append i e.attempt es v.entry v.content.operation_id v.content.attempt in
      let counts =
        append-IsCounted i e.attempt es v.entry v.content.operation_id v.content.attempt
          (v.content.sequence ∙ v.next) counted in
      elim h [
        | inl unsent ↦ (
          (v.entry, v.content, appended ∙ ap (λ l. l ++ (v.entry ∷ [])) unsent),
          rw (v.log) counts,
        )
        | inr (x, content, sent) ↦
            let same_length = ap (λ (l : List OperationEvent). length l) sent in
            let number = v.next in ground (arith, length-append before (x ∷ []))
      ]

  known_added :
      (before es after : List OperationEvent)
      → e.sequence ≡ length before + 1
      → IsCounted i e.attempt es
      → IsSentOrNot p (event_params node i e) before (attempt_events i e.attempt es)
      → IsKnown p (event_params node i e) es after
      → WasAdded p (event_params node i e) before (attempt_events i e.attempt after)
        × IsCounted i e.attempt after
  unfolding event_params
  known_added before es after next counted h v = elim h [
    | inl unsent ↦
        let same_length = ap (λ (l : List OperationEvent). length l) unsent in
        let small = get_event-last i e.attempt e.sequence es v.entry v.there in ground arith
    | inr sent ↦ rw (v.log) (sent, counted)
  ]

  recorded_added :
      (before es after : List OperationEvent)
      → e.sequence ≡ length before + 1
      → IsCounted i e.attempt es
      → IsSentOrNot p (event_params node i e) before (attempt_events i e.attempt es)
      → IsRecorded p (event_params node i e) es after
      → WasAdded p (event_params node i e) before (attempt_events i e.attempt after)
        × IsCounted i e.attempt after
  recorded_added before es after next counted h (inl v) = new_added before es after next counted h v
  recorded_added before es after next counted h (inr v) =
      known_added before es after next counted h v

  post-cases :
      (s : Store)
      → (((post p node i a e s).0 ≡ false) × ((post p node i a e s).1.events ≡ (a.others s).events))
        ⊎ IsRecorded p (event_params node i e) (a.others s).events (post p node i a e s).1.events
  unfolding post
  post-cases s =
      let called = record_event p a.clock a.fresh (event_params node i e) (a.others s) in
      elim (record_event-IsRecorded p a.clock a.fresh (event_params node i e) (a.others s)) [
        | inl (x, h) ↦ inl (rw h refl, rw h refl)
        | inr h ↦ inr (rw (accepted_by-store called) h)
      ]

  -- The log after the request, if the log before it has the event or lacks it.
  pub post-WasSent :
      (before : List OperationEvent) (s : Store)
      → IsApart i e.attempt a
      → e.sequence ≡ length before + 1
      → IsCounted i e.attempt s.events
      → IsSentOrNot p (event_params node i e) before (attempt_events i e.attempt s.events)
      → WasSent p
          (event_params node i e)
          before
          (post p node i a e s).0
          (attempt_events i e.attempt (post p node i a e s).1.events)
        × IsCounted i e.attempt (post p node i a e s).1.events
  post-WasSent before s apart next counted h =
      let here = apart-IsCounted i e.attempt s.events (a.others s).events (apart s) counted in
      elim (post-cases s) [
        | inl (denied, left) ↦ rw (denied, left) (rw (apart s) h, here)
        | inr recorded ↦
            let (added, after) =
              recorded_added before (a.others s).events (post p node i a e s).1.events next here
                (rw (apart s) h) recorded in
            (WasAdded-WasSent p _ before _ (post p node i a e s).0 added, after)
      ]
