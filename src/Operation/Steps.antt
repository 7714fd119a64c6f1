-- ===== src/Operation/Steps.antt =====
-- The calls on the operation tables as steps, and the writes that a step is made of.
pub mod Rules
pub mod Writes
pub mod Reports
use box_fleet.Base.{
  ℕ, suc, ◌+◌, ◌≡◌, refl, Text, Bool, true, false, Option, none, some, List, [], ◌∷◌, ◌++◌, inl,
  inr, arith, if◌then◌else◌, find_row, update_rows, any_row, Bool-cases, Option-cases,
}
use box_fleet.Platform.{Platform}
use box_fleet.Database.{
  Status, queued, running, Operation, OperationEvent, Store, Failure, Reason, no_rows, Result, ok,
  err, M, ◌>>=◌, ◌>>◌, return, throw, guard, with_tx,
}
use box_fleet.Operation.Sql.{
  conflicts, expire_where, expire_set, claim_where, claim_set, lease_held, resume_set, renew_where,
  cancel_where, cancel_set, cancel_unclaimed_where, cancel_unclaimed_set, apply_set, last_sequence,
  update_one,
}
use box_fleet.Operation.Calls.{CreateParams, ClaimParams, EventParams}
use box_fleet.Operation.Methods.{
  create_operation, active_operation_of, claim_operation, renew_lease, request_cancel,
  cancel_unclaimed,
}
use box_fleet.Operation.Report.{record_event}

-- A call, with what the source draws at random for it.
pub data Call : Type 0 where
  creates : (fresh : Text) → CreateParams → Call
  looks : (name : Text) → Call
  claims : (secret : Text) → ClaimParams → Call
  renews : (name id token : Text) → (attempt : ℕ) → Call
  cancels : (id : Text) → Call
  cancels_unclaimed : (id : Text) → Call
  reports : (fresh : Text) → EventParams → Call

-- The database after a call.
unfoldable pub step : Platform → ℕ → Call → Store → Store
step p now (creates fresh params) s = (create_operation p now fresh params s).1
step p now (looks name) s = (active_operation_of p now name s).1
step p now (claims secret params) s = (claim_operation p now secret params s).1
step p now (renews name i token attempt) s = (renew_lease p now name i token attempt s).1
step p now (cancels i) s = (request_cancel p now i s).1
step p now (cancels_unclaimed i) s = (cancel_unclaimed p now i s).1
step p now (reports fresh params) s = (record_event p now fresh params s).1

-- Calls one after another, each at its time.
unfoldable pub run : Platform → List (ℕ × Call) → Store → Store
run p [] s = s
run p ((now, c) ∷ cs) s = run p cs (step p now c s)

-- The UPDATE statements.
pub data Statement : Type 0 where
  expire : (node : Text) → Statement
  claim : (id node : Text) → (hash lease : Option Text) → Statement
  resume : (id node : Text) → (hash lease : Option Text) → Statement
  renew :
      (id node : Text) → (hash : Option Text) → (attempt : ℕ) → (lease : Option Text) → Statement
  cancel : (id : Text) → Statement
  drop : (id : Text) → Statement
  apply :
      (id node : Text)
      → (hash : Option Text) → (attempt : ℕ) → Status
      → (phase result error : Text) → (lease finished : Option Text) → Statement

abbrev pub matches : Text → Statement → Operation → Bool
matches now (expire node) = expire_where node now
matches now (claim i node hash lease) = claim_where i node now
matches now (resume i node hash lease) = lease_held i node hash now
matches now (renew i node hash attempt lease) = renew_where i node hash attempt now
matches now (cancel i) = cancel_where i
matches now (drop i) = cancel_unclaimed_where i
matches now (apply i node hash attempt next phase result error lease finished) =
    renew_where i node hash attempt now

abbrev pub sets : Text → Statement → Operation → Operation
sets now (expire node) = expire_set now
sets now (claim i node hash lease) = claim_set now hash lease
sets now (resume i node hash lease) = resume_set now lease
sets now (renew i node hash attempt lease) = resume_set now lease
sets now (cancel i) = cancel_set now
sets now (drop i) = cancel_unclaimed_set now
sets now (apply i node hash attempt next phase result error lease finished) =
    apply_set now next phase result error lease finished

-- One write, at a time.
pub data Change (now : Text) (s t : Store) : Type 0 where
  insert :
      (new : Operation)
      → new.status ≡ queued
      → any_row (conflicts new) s.operations ≡ false
      → t ≡ record s { operations = s.operations ++ (new ∷ []) }
      → Change now s t
  update :
      (u : Statement)
      → t ≡ record s { operations = update_rows (matches now u) (sets now u) s.operations }
      → Change now s t
  log :
      (e : OperationEvent)
      → e.sequence ≡ last_sequence e.operation_id e.attempt s.events + 1
      → t ≡ record s { events = s.events ++ (e ∷ []) }
      → Change now s t

pub data Changes (now : Text) (s : Store) : Store → Type 0 where
  nothing : Changes now s s
  also : {t u : Store} → Changes now s t → Change now t u → Changes now s u

pub Changes-trans :
    {now : Text} {s t u : Store} → Changes now s t → Changes now t u → Changes now s u
Changes-trans a nothing = a
Changes-trans a (also b c) = also (Changes-trans a b) c
