-- ===== src/Operation/Log.antt =====
-- The event log of each attempt of an operation.
use box_fleet.Base.{
  ℕ, ◌+◌, ◌≤◌, ◌<◌, ◌≡◌, refl, Text, false, List, [], ◌∷◌, ◌++◌, arith, count_rows,
  count_rows-append, same, same_iff, ◌&&◌, ◌==◌, ◌⊎◌, inl, inr,
}
use box_fleet.Platform.{Platform}
use box_fleet.Database.{OperationEvent, Store}
use box_fleet.Operation.Sql.{by_sequence, last_sequence}
use box_fleet.Operation.Steps.{Change, insert, update, log, Changes, nothing, also, Call, step, run}
use box_fleet.Operation.Steps.Reports.{step-Changes}

abbrev pub logged : Text → ℕ → ℕ → List OperationEvent → ℕ
logged i n k = count_rows (by_sequence i n k)

-- Nothing is logged above the last sequence number.
logged_above :
    (i : Text) (n k : ℕ) (es : List OperationEvent) → last_sequence i n es < k → logged i n k es ≡ 0
unfolding last_sequence count_rows by_sequence
logged_above i n k [] h = refl
logged_above i n k (e ∷ es) h = ground (arith, logged_above i n k es)

-- What an event adds to its own attempt, and to no other.
last_sequence-append :
    (i : Text) (n : ℕ) (es : List OperationEvent) (e : OperationEvent)
    → last_sequence i n es ≤ last_sequence i n (es ++ (e ∷ []))
unfolding last_sequence
last_sequence-append i n [] e = omega arith
last_sequence-append i n (x ∷ es) e = ground (arith, last_sequence-append i n es e)

pub last_sequence-append_own :
    (es : List OperationEvent) (e : OperationEvent)
    → last_sequence e.operation_id e.attempt es ≤ e.sequence
    → last_sequence e.operation_id e.attempt (es ++ (e ∷ [])) ≡ e.sequence
unfolding last_sequence
last_sequence-append_own [] e h = ground (arith, same_iff e.operation_id e.operation_id)
last_sequence-append_own (x ∷ es) e h = ground (arith, last_sequence-append_own es e)

last_sequence-append_other :
    (i : Text) (n : ℕ) (es : List OperationEvent) (e : OperationEvent)
    → (same e.operation_id i && (e.attempt == n)) ≡ false
    → last_sequence i n (es ++ (e ∷ [])) ≡ last_sequence i n es
unfolding last_sequence
last_sequence-append_other i n [] e h = ground arith
last_sequence-append_other i n (x ∷ es) e h = ground (arith, last_sequence-append_other i n es e)

-- The sequence numbers of an attempt's events run from 1 to the last, each once.
pub record IsLog (es : List OperationEvent) : Type 0 where
  pub at : (i : Text) (n k : ℕ) → 0 < k → k ≤ last_sequence i n es → logged i n k es ≡ 1

logged-append_own :
    (es : List OperationEvent) (e : OperationEvent) (k : ℕ)
    → IsLog es
    → e.sequence ≡ last_sequence e.operation_id e.attempt es + 1
    → 0 < k
    → k ≤ last_sequence e.operation_id e.attempt (es ++ (e ∷ []))
    → logged e.operation_id e.attempt k (es ++ (e ∷ [])) ≡ 1
unfolding count_rows by_sequence
logged-append_own es e k v h pos le = ground (
  arith,
  last_sequence-append_own es e,
  count_rows-append (by_sequence e.operation_id e.attempt k) es (e ∷ []),
  same_iff e.operation_id e.operation_id,
  v.at e.operation_id e.attempt k,
  logged_above e.operation_id e.attempt k es,
)

logged-append_other :
    (i : Text) (n k : ℕ) (es : List OperationEvent) (e : OperationEvent)
    → IsLog es
    → (same e.operation_id i && (e.attempt == n)) ≡ false
    → 0 < k
    → k ≤ last_sequence i n (es ++ (e ∷ []))
    → logged i n k (es ++ (e ∷ [])) ≡ 1
unfolding count_rows by_sequence
logged-append_other i n k es e v d pos le = ground (
  arith,
  last_sequence-append_other i n es e,
  count_rows-append (by_sequence i n k) es (e ∷ []),
  v.at i n k,
)

own_cases :
    (i : Text) (n : ℕ) (e : OperationEvent)
    → (((same e.operation_id i && (e.attempt == n)) ≡ false))
      ⊎ ((i ≡ e.operation_id) × (n ≡ e.attempt))
own_cases i n e = ground (arith, same_iff e.operation_id i)

logged-append :
    (i : Text) (n k : ℕ) (es : List OperationEvent) (e : OperationEvent)
    → IsLog es
    → e.sequence ≡ last_sequence e.operation_id e.attempt es + 1
    → 0 < k
    → k ≤ last_sequence i n (es ++ (e ∷ []))
    → logged i n k (es ++ (e ∷ [])) ≡ 1
logged-append i n k es e v h pos le = elim (own_cases i n e) [
  | inl d ↦ logged-append_other i n k es e v d pos le
  | inr (a, b) ↦ rw (a, b) (logged-append_own es e k v h pos (rw (a, b) at le))
]

Change-IsLog : {now : Text} {s t : Store} → Change now s t → IsLog s.events → IsLog t.events
Change-IsLog (insert new q free e) v = rw e v
Change-IsLog (update u e) v = rw e v
Change-IsLog {s = s} (log x h e) v =
    rw e (record { at = λ i n k pos le. logged-append i n k s.events x v h pos le })

pub Changes-IsLog : {now : Text} {s t : Store} → Changes now s t → IsLog s.events → IsLog t.events
Changes-IsLog nothing v = v
Changes-IsLog (also cs c) v = Change-IsLog c (Changes-IsLog cs v)

-- If the events of each attempt of each operation are numbered from 1 to the last, each number once,
-- then so they are after any calls: the log has no gap and no number twice.
pub run-IsLog :
    (p : Platform) (cs : List (ℕ × Call)) (s : Store) → IsLog s.events → IsLog (run p cs s).events
unfolding run
run-IsLog p [] s v = v
run-IsLog p ((now, c) ∷ cs) s v =
    run-IsLog p cs (step p now c s) (Changes-IsLog (step-Changes p now c s) v)
