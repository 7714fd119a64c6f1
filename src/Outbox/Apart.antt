-- ===== src/Outbox/Apart.antt =====
-- What the calls of others leave of the log of an attempt.
use box_fleet.Base.{
  ℕ, ◌≡◌, refl, ap, ◌∙◌, Text, same, false, ◌&&◌, List, [], ◌∷◌, ◌++◌, arith, inl, inr, ◌==◌,
}
use box_fleet.Platform.{Platform}
use box_fleet.Database.{OperationEvent, Store}
use box_fleet.Operation.Calls.{EventParams}
use box_fleet.Operation.Report.{record_event}
use box_fleet.Operation.Steps.{
  Call, creates, looks, claims, renews, cancels, cancels_unclaimed, reports, step, run,
}
use box_fleet.Operation.Recorded.{record_event-IsRecorded}
use box_fleet.Operation.Unlogged.{
  create_operation-Keeps, active_operation_of-Keeps, claim_operation-Keeps, renew_lease-Keeps,
  request_cancel-Keeps, cancel_unclaimed-Keeps,
}
use box_fleet.Outbox.Server.{attempt_events}

-- A call that is no report of an event of this attempt of the operation.
abbrev pub IsElsewhere : Text → ℕ → Call → Type 0
IsElsewhere i n (reports fresh params) =
    (same params.operation_id i && (params.attempt == n)) ≡ false
IsElsewhere i n _ = Unit

abbrev pub AreElsewhere : Text → ℕ → List (ℕ × Call) → Type 0
AreElsewhere i n [] = Unit
AreElsewhere i n ((now, c) ∷ cs) = IsElsewhere i n c × AreElsewhere i n cs

attempt_events-append_other :
    (i : Text) (n : ℕ) (es : List OperationEvent) (x : OperationEvent)
    → (same x.operation_id i && (x.attempt == n)) ≡ false
    → attempt_events i n (es ++ (x ∷ [])) ≡ attempt_events i n es
unfolding attempt_events
attempt_events-append_other i n [] x h = rw h refl
attempt_events-append_other i n (e ∷ es) x h =
    ground (arith, attempt_events-append_other i n es x h)

module _ (p : Platform) (now : ℕ) (i : Text) (n : ℕ) where
  attempt_events-record_event :
      (fresh : Text) (params : EventParams) (s : Store)
      → (same params.operation_id i && (params.attempt == n)) ≡ false
      → attempt_events i n (record_event p now fresh params s).1.events
        ≡ attempt_events i n s.events
  attempt_events-record_event fresh params s h =
      elim (record_event-IsRecorded p now fresh params s) [
        | inl (e, failed) ↦ rw failed refl
        | inr (inl v) ↦ rw (v.log) (
            attempt_events-append_other i n s.events v.entry
              (rw (v.content.operation_id, v.content.attempt) h))
        | inr (inr v) ↦ ap (attempt_events i n) v.log
      ]

  attempt_events-step :
      (c : Call) (s : Store)
      → IsElsewhere i n c
      → attempt_events i n (step p now c s).events ≡ attempt_events i n s.events
  unfolding step
  attempt_events-step (creates fresh params) s h =
      ap (attempt_events i n) ((create_operation-Keeps p now fresh params).at s)
  attempt_events-step (looks name) s h =
      ap (attempt_events i n) ((active_operation_of-Keeps p now name).at s)
  attempt_events-step (claims secret params) s h =
      ap (attempt_events i n) ((claim_operation-Keeps p now secret params).at s)
  attempt_events-step (renews name id token k) s h =
      ap (attempt_events i n) ((renew_lease-Keeps p now name id token k).at s)
  attempt_events-step (cancels id) s h =
      ap (attempt_events i n) ((request_cancel-Keeps p now id).at s)
  attempt_events-step (cancels_unclaimed id) s h =
      ap (attempt_events i n) ((cancel_unclaimed-Keeps p now id).at s)
  attempt_events-step (reports fresh params) s h = attempt_events-record_event fresh params s h

-- Only a report of an event of an attempt changes the log of that attempt: any other calls, reports
-- for other attempts or operations too, leave it as it was.
pub attempt_events-run :
    (p : Platform) (i : Text) (n : ℕ) (cs : List (ℕ × Call)) (s : Store)
    → AreElsewhere i n cs
    → attempt_events i n (run p cs s).events ≡ attempt_events i n s.events
unfolding run
attempt_events-run p i n [] s h = refl
attempt_events-run p i n ((now, c) ∷ cs) s h =
    attempt_events-run p i n cs (step p now c s) h.1 ∙ attempt_events-step p now i n c s h.0
