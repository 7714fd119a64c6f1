-- ===== src/Database.antt =====
-- The database, and the methods of DB as a state and error monad over it.
mod Tables
unfoldable pub use box_fleet.Database.Tables.*
use box_fleet.Base.{Bool, true, false, Option, none, some}

pub data Reason : Type 0 where
  unsupported_kind bad_payload key_required key_too_long : Reason
  too_many_capabilities capability_too_long bad_capability : Reason
  bad_not_before bad_expires_at empty_window retry_not_terminal : Reason
  bad_status bad_phase message_too_long error_too_long bad_details bad_result : Reason
  bad_reported_at event_reused not_cancelling sequence_exists sequence_gap corrupt_row : Reason
  constraint_failed : Reason
  empty_batch campaign_terminal not_paused no_operation nothing_failed : Reason
  release_required bad_batch_size no_component no_members bad_members bad_member_kind one_canary :
      Reason

pub data Failure : Type 0 where
  -- sql.ErrNoRows
  no_rows : Failure
  -- ErrActiveNodeOperation
  active_operation : Failure
  -- ErrInvalidOperationLease
  invalid_lease : Failure
  -- ErrOperationIdempotencyConflict
  idempotency_conflict : Failure
  refused : Reason → Failure

pub data Result {ℓ} (A : Type ℓ) : Type ℓ where
  ok : A → Result A
  err : Failure → Result A

-- A method of DB: its result, and the database after it.
abbrev pub M : Type 0 → Type 0
M A = Store → Result A × Store

abbrev then_do : {A B : Type 0} → Result A × Store → (A → M B) → Result B × Store
then_do (ok a, s) f = f a s
then_do (err e, s) f = (err e, s)

abbrev rolled_back : {A : Type 0} → Store → Result A × Store → Result A × Store
rolled_back s (ok a, t) = (ok a, t)
rolled_back s (err e, t) = (err e, s)

unfoldable pub return : {A : Type 0} → A → M A
return a s = (ok a, s)

unfoldable pub throw : {A : Type 0} → Failure → M A
throw e s = (err e, s)

unfoldable pub guard : Bool → Failure → M (Unit {0})
guard true e s = (ok tt, s)
guard false e s = (err e, s)

-- A value that may be missing, with the error for that.
unfoldable pub or_fail : {A : Type 0} → Option A → Failure → M A
or_fail none e s = (err e, s)
or_fail (some a) e s = (ok a, s)

unfoldable pub or_reason : Option Reason → M (Unit {0})
or_reason none s = (ok tt, s)
or_reason (some r) s = (err (refused r), s)

-- A SELECT.
unfoldable pub reads : {A : Type 0} → (Store → A) → M A
reads f s = (ok (f s), s)

-- The error of a call as a value.
unfoldable pub attempt : {A : Type 0} → M A → M (Result A)
attempt m s = (ok (m s).0, (m s).1)

-- withTx: an error undoes what the function wrote.
unfoldable pub with_tx : {A : Type 0} → M A → M A
with_tx m s = rolled_back s (m s)

-- To unfold the chain is to unfold its links.
infixl 5 ◌>>=◌ ◌>>◌
unfoldable pub ◌>>=◌ : {A B : Type 0} → M A → (A → M B) → M B
unfolding return throw guard or_fail or_reason reads attempt with_tx
◌>>=◌ m f s = then_do (m s) f

abbrev pub ◌>>◌ : {B : Type 0} → M (Unit {0}) → M B → M B
◌>>◌ m k = m >>= λ _. k
