-- ===== src/Operation/Steps/Reports.antt =====
-- RecordNodeOperationEvent changes the database by the listed writes only.
use box_fleet.Base.{
  ℕ, ◌+◌, ◌≡◌, refl, Text, Bool, true, false, Option, none, some, inl, inr, arith, any_row,
  Bool-cases, ◌==◌,
}
use box_fleet.Platform.{Platform}
use box_fleet.Database.{Operation, OperationEvent, Store, Failure, M, ◌>>=◌, guard, reads}
use box_fleet.Operation.Sql.{last_sequence, append_event, by_sequence, same_event, update_one}
use box_fleet.Operation.Calls.{EventParams}
use box_fleet.Operation.Report.{
  Report, record_event, check_report, reported, accept_event, log_or_replay, record_tx, new_event,
  applies, applied,
}
use box_fleet.Operation.Steps.{
  log, Changes, nothing, also, apply, Call, creates, looks, claims, renews, cancels,
  cancels_unclaimed, reports, step,
}
use box_fleet.Operation.Steps.Rules.{Writes, Writes-try_one, Writes-update, chain, bind-Changes}
use box_fleet.Operation.Methods.{try_one}
use box_fleet.Operation.Steps.Writes.{
  Writes-view, Writes-create_operation, Writes-active_operation_of, Writes-claim_operation,
  Writes-renew_lease, Writes-request_cancel, Writes-cancel_unclaimed,
}

module _ (p : Platform) (now : ℕ) where
  guard-Changes :
      {A : Type 0} (b : Bool) (e : Failure) (k : Unit {0} → M A) (s : Store)
      → (b ≡ true → Changes (p.sql_time now) s (k tt s).1)
      → Changes (p.sql_time now) s ((guard b e >>= k) s).1
  unfolding ◌>>=◌
  guard-Changes true e k s h = h refl
  guard-Changes false e k s h = nothing

  reads-Changes :
      {A B : Type 0} (f : Store → A) (k : A → M B) (s : Store)
      → Changes (p.sql_time now) s (k (f s) s).1
      → Changes (p.sql_time now) s ((reads f >>= k) s).1
  unfolding ◌>>=◌
  reads-Changes f k s h = h

  append-Changes :
      (fresh : Text) (q : Report) (s : Store)
      → (q.sequence == (last_sequence q.operation_id q.attempt s.events + 1)) ≡ true
      → Changes (p.sql_time now) s (append_event (new_event p now fresh q) s).1
  unfolding append_event new_event
  append-Changes fresh q s h =
      elim (Bool-cases (any_row (by_sequence q.operation_id q.attempt q.sequence) s.events)) [
        | inl known ↦ rw known nothing
        | inr free ↦
            rw free (elim (Bool-cases (any_row (same_event (new_event p now fresh q)) s.events)) [
              | inl taken ↦ rw taken nothing
              | inr other ↦ rw other (also nothing (log _ (ground arith) refl))
            ])
      ]

  Writes-apply :
      (q : Report)
      → Writes (p.sql_time now) (try_one (update_one (applies p now q) (applied p now q)))
  Writes-apply q = Writes-try_one _ (
      Writes-update (p.sql_time now)
        (apply q.operation_id q.node.id _ q.attempt q.status _ _ _ _ _))

  accept_event-Changes :
      (fresh : Text) (q : Report) (current : Operation) (s : Store)
      → Changes (p.sql_time now) s (accept_event p now fresh q current s).1
  unfolding accept_event
  accept_event-Changes fresh q current s = guard-Changes _ _ _ s λ _. guard-Changes _ _ _ s λ _.
      reads-Changes _ _ s (
        guard-Changes _ _ _ s λ _. guard-Changes _ _ _ s λ h.
          bind-Changes _ _ s _ _ refl (append-Changes fresh q s h)
            (λ _. search (chain, Writes-apply)))

  Writes-accept_event :
      (fresh : Text) (q : Report) (current : Operation)
      → Writes (p.sql_time now) (accept_event p now fresh q current)
  Writes-accept_event fresh q current = record { at = accept_event-Changes fresh q current }

  Writes-log_or_replay :
      (fresh : Text) (q : Report) (current : Operation) (o : Option OperationEvent)
      → Writes (p.sql_time now) (log_or_replay p now fresh q current o)
  unfolding log_or_replay
  Writes-log_or_replay fresh q current none = Writes-accept_event fresh q current
  Writes-log_or_replay fresh q current (some e) = search chain

  Writes-record_tx : (fresh : Text) (q : Report) → Writes (p.sql_time now) (record_tx p now fresh q)
  unfolding record_tx
  Writes-record_tx fresh q = search (chain, Writes-log_or_replay) depth 12

  Writes-reported : (t : Text) → Writes (p.sql_time now) (reported p now t)
  unfolding reported
  Writes-reported t = search chain

  Writes-check_report : (params : EventParams) → Writes (p.sql_time now) (check_report p now params)
  unfolding check_report
  Writes-check_report params = search (chain, Writes-reported) depth 30

  pub Writes-record_event :
      (fresh : Text) (params : EventParams)
      → Writes (p.sql_time now) (record_event p now fresh params)
  unfolding record_event
  Writes-record_event fresh params =
      search (chain, Writes-check_report, Writes-record_tx, Writes-view) depth 9

  -- Every call changes the database by the listed writes, one after another, and by nothing else.
  pub step-Changes : (c : Call) (s : Store) → Changes (p.sql_time now) s (step p now c s)
  unfolding step
  step-Changes (creates fresh params) s = (Writes-create_operation p now fresh params).at s
  step-Changes (looks name) s = (Writes-active_operation_of p now name).at s
  step-Changes (claims secret params) s = (Writes-claim_operation p now secret params).at s
  step-Changes (renews name i token n) s = (Writes-renew_lease p now name i token n).at s
  step-Changes (cancels i) s = (Writes-request_cancel p now i).at s
  step-Changes (cancels_unclaimed i) s = (Writes-cancel_unclaimed p now i).at s
  step-Changes (reports fresh params) s = (Writes-record_event fresh params).at s
