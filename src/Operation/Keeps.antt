-- ===== src/Operation/Keeps.antt =====
-- What a method leaves as it was, seen through a function of the database: one rule for each way to
-- build a method.
use box_fleet.Base.{
  ◌≡◌, refl, ◌∙◌, Text, Bool, true, false, Option, none, some, inl, inr, if◌then◌else◌, find_row,
  any_row, List, Bool-cases, Option-cases,
}
use box_fleet.Database.{
  Operation, OperationEvent, Store, Failure, Reason, no_rows, Result, ok, err, M, ◌>>=◌, return,
  throw, guard, or_fail, or_reason, reads, attempt, with_tx,
}
use box_fleet.Operation.Sql.{update_one, insert_operation, conflicts}
use box_fleet.Operation.Calls.{get_node}
use box_fleet.Operation.Methods.{optional, try_one}
use box_fleet.Operation.Steps.{Statement, matches, sets}

pub record Keeps {B : Type 0} (f : Store → B) {A : Type 0} (m : M A) : Type 0 where
  pub at : (s : Store) → f (m s).1 ≡ f s

with_tx_unchanged :
    {B A : Type 0} (f : Store → B) (m : M A) (s : Store) (r : Result A) (t : Store)
    → m s ≡ (r, t)
    → f t ≡ f s
    → f (with_tx m s).1 ≡ f s
unfolding with_tx
with_tx_unchanged f m s (ok a) t e c = rw e c
with_tx_unchanged f m s (err x) t e c = rw e refl

module _ {B : Type 0} {f : Store → B} {A : Type 0} where
  pub return-Keeps : (a : A) → Keeps f (return a)
  unfolding return
  return-Keeps a = record { at = λ s. refl }

  pub throw-Keeps : (e : Failure) → Keeps f (throw {A = A} e)
  unfolding throw
  throw-Keeps e = record { at = λ s. refl }

  pub reads-Keeps : (g : Store → A) → Keeps f (reads g)
  unfolding reads
  reads-Keeps g = record { at = λ s. refl }

  pub or_fail-Keeps : (o : Option A) (e : Failure) → Keeps f (or_fail o e)
  unfolding or_fail
  or_fail-Keeps none e = record { at = λ s. refl }
  or_fail-Keeps (some a) e = record { at = λ s. refl }

  pub attempt-Keeps : (m : M A) → Keeps f m → Keeps f (attempt m)
  unfolding attempt
  attempt-Keeps m v = record { at = v.at }

  pub with_tx-Keeps : (m : M A) → Keeps f m → Keeps f (with_tx m)
  with_tx-Keeps m v = record { at = λ s. with_tx_unchanged f m s (m s).0 (m s).1 refl (v.at s) }

  pub if-Keeps : (b : Bool) (m n : M A) → Keeps f m → Keeps f n → Keeps f (if b then m else n)
  if-Keeps true m n v w = v
  if-Keeps false m n v w = w

module _ {B : Type 0} {f : Store → B} where
  pub guard-Keeps : (b : Bool) (e : Failure) → Keeps f (guard b e)
  unfolding guard
  guard-Keeps true e = record { at = λ s. refl }
  guard-Keeps false e = record { at = λ s. refl }

  pub or_reason-Keeps : (o : Option Reason) → Keeps f (or_reason o)
  unfolding or_reason
  or_reason-Keeps none = record { at = λ s. refl }
  or_reason-Keeps (some r) = record { at = λ s. refl }

  pub get_node-Keeps : (name : Text) → Keeps f (get_node name)
  unfolding get_node
  get_node-Keeps name = record { at = λ s. refl }

module _ {B : Type 0} {f : Store → B} {A C : Type 0} where
  bind_unchanged :
      (m : M A) (k : A → M C) (s : Store) (r : Result A) (t : Store)
      → m s ≡ (r, t)
      → f t ≡ f s
      → ((a : A) → Keeps f (k a))
      → f ((m >>= k) s).1 ≡ f s
  unfolding ◌>>=◌
  bind_unchanged m k s (ok a) t e c w = rw e ((w a).at t ∙ c)
  bind_unchanged m k s (err x) t e c w = rw e c

  pub bind-Keeps :
      (m : M A) (k : A → M C) → Keeps f m → ((a : A) → Keeps f (k a)) → Keeps f (m >>= k)
  bind-Keeps m k v w = record { at = λ s. bind_unchanged m k s (m s).0 (m s).1 refl (v.at s) w }

module _ {B : Type 0} {f : Store → B} {A : Type 0} where
  optional-Keeps : (r : Result A) → Keeps f (optional r)
  unfolding optional
  optional-Keeps (ok a) = return-Keeps _
  optional-Keeps (err no_rows) = return-Keeps _
  optional-Keeps (err _) = throw-Keeps _

  pub try_one-Keeps : (m : M A) → Keeps f m → Keeps f (try_one m)
  unfolding try_one
  try_one-Keeps m v = bind-Keeps _ _ (attempt-Keeps m v) (λ r. optional-Keeps r)

abbrev pub log_of : Store → List OperationEvent
log_of s = s.events

pub update-Keeps :
    (now : Text) (u : Statement) → Keeps log_of (update_one (matches now u) (sets now u))
unfolding update_one
update-Keeps now u = record {
  at = λ s. elim (Option-cases (find_row (matches now u) s.operations)) [
    | inl e ↦ rw e refl
    | inr (r, e) ↦ rw e refl
  ];
}

pub insert-Keeps : (new : Operation) → Keeps log_of (insert_operation new)
unfolding insert_operation
insert-Keeps new = record {
  at = λ s. elim (Bool-cases (any_row (conflicts new) s.operations)) [
    | inl clash ↦ rw clash refl
    | inr free ↦ rw free refl
  ];
}

pub ruleset keeping = (
  return-Keeps, throw-Keeps, reads-Keeps, or_fail-Keeps, attempt-Keeps, with_tx-Keeps, if-Keeps,
  guard-Keeps, or_reason-Keeps, bind-Keeps, try_one-Keeps, get_node-Keeps,
)
