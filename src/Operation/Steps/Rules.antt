-- ===== src/Operation/Steps/Rules.antt =====
-- When a method writes by the listed changes only: one rule for each way to build a method.
use box_fleet.Base.{
  ◌≡◌, refl, Text, Bool, true, false, Option, none, some, inl, inr, if◌then◌else◌, find_row,
  any_row, Bool-cases,
}
use box_fleet.Database.{
  queued, Operation, Store, Failure, Reason, no_rows, Result, ok, err, M, ◌>>=◌, return, throw,
  guard, or_fail, or_reason, reads, attempt, with_tx,
}
use box_fleet.Operation.Sql.{update_one, insert_operation, conflicts}
use box_fleet.Operation.Calls.{get_node}
use box_fleet.Operation.Methods.{optional, try_one}
use box_fleet.Operation.Steps.{
  Statement, matches, sets, insert, update, Changes, nothing, also, Changes-trans,
}

-- A method that writes by such changes only, whether it returns or fails.
pub record Writes (now : Text) {A : Type 0} (m : M A) : Type 0 where
  pub at : (s : Store) → Changes now s (m s).1

module _ {now : Text} {A : Type 0} where
  pub Writes-return : (a : A) → Writes now (return a)
  unfolding return
  Writes-return a = record { at = λ s. nothing }

  pub Writes-throw : (e : Failure) → Writes now (throw {A = A} e)
  unfolding throw
  Writes-throw e = record { at = λ s. nothing }

  pub Writes-reads : (f : Store → A) → Writes now (reads f)
  unfolding reads
  Writes-reads f = record { at = λ s. nothing }

  pub Writes-or_fail : (o : Option A) (e : Failure) → Writes now (or_fail o e)
  unfolding or_fail
  Writes-or_fail none e = record { at = λ s. nothing }
  Writes-or_fail (some a) e = record { at = λ s. nothing }

  pub Writes-attempt : (m : M A) → Writes now m → Writes now (attempt m)
  unfolding attempt
  Writes-attempt m w = record { at = w.at }

  rolled_back-Changes :
      (m : M A) (s : Store) (r : Result A) (t : Store)
      → m s ≡ (r, t)
      → Changes now s t
      → Changes now s (with_tx m s).1
  unfolding with_tx
  rolled_back-Changes m s (ok a) t e c = rw e c
  rolled_back-Changes m s (err f) t e c = rw e nothing

  pub Writes-with_tx : (m : M A) → Writes now m → Writes now (with_tx m)
  Writes-with_tx m w = record { at = λ s. rolled_back-Changes m s (m s).0 (m s).1 refl (w.at s) }

  pub Writes-if :
      (b : Bool) (m n : M A) → Writes now m → Writes now n → Writes now (if b then m else n)
  Writes-if true m n wm wn = wm
  Writes-if false m n wm wn = wn

module _ {now : Text} where
  pub Writes-guard : (b : Bool) (e : Failure) → Writes now (guard b e)
  unfolding guard
  Writes-guard true e = record { at = λ s. nothing }
  Writes-guard false e = record { at = λ s. nothing }

  pub Writes-or_reason : (o : Option Reason) → Writes now (or_reason o)
  unfolding or_reason
  Writes-or_reason none = record { at = λ s. nothing }
  Writes-or_reason (some r) = record { at = λ s. nothing }

module _ {now : Text} {A B : Type 0} where
  pub bind-Changes :
      (m : M A) (f : A → M B) (s : Store) (r : Result A) (t : Store)
      → m s ≡ (r, t)
      → Changes now s t
      → ((a : A) → Writes now (f a))
      → Changes now s ((m >>= f) s).1
  unfolding ◌>>=◌
  bind-Changes m f s (ok a) t e c w = rw e (Changes-trans c ((w a).at t))
  bind-Changes m f s (err x) t e c w = rw e c

  pub Writes-bind :
      (m : M A) (f : A → M B) → Writes now m → ((a : A) → Writes now (f a)) → Writes now (m >>= f)
  Writes-bind m f wm wf = record { at = λ s. bind-Changes m f s (m s).0 (m s).1 refl (wm.at s) wf }

pub update_found-Changes :
    (now : Text) (u : Statement) (s : Store) (o : Option Operation)
    → find_row (matches now u) s.operations ≡ o
    → Changes now s (update_one (matches now u) (sets now u) s).1
unfolding update_one
update_found-Changes now u s none e = rw (e, update_one) nothing
update_found-Changes now u s (some r) e = rw (e, update_one) (also nothing (update u refl))

pub Writes-update :
    (now : Text) (u : Statement) → Writes now (update_one (matches now u) (sets now u))
Writes-update now u = record { at = λ s. update_found-Changes now u s _ refl }

pub Writes-optional : {now : Text} {A : Type 0} (r : Result A) → Writes now (optional r)
unfolding optional
Writes-optional (ok a) = Writes-return _
Writes-optional (err no_rows) = Writes-return _
Writes-optional (err _) = Writes-throw _

pub Writes-try_one : {now : Text} {A : Type 0} (m : M A) → Writes now m → Writes now (try_one m)
unfolding try_one
Writes-try_one m w = Writes-bind _ _ (Writes-attempt m w) (λ r. Writes-optional r)

pub Writes-get_node : (now name : Text) → Writes now (get_node name)
unfolding get_node
Writes-get_node now name = record { at = λ s. nothing }

pub insert-Changes :
    (now : Text) (new : Operation) (s : Store)
    → new.status ≡ queued
    → Changes now s (insert_operation new s).1
unfolding insert_operation
insert-Changes now new s q = elim (Bool-cases (any_row (conflicts new) s.operations)) [
  | inl clash ↦ rw clash nothing
  | inr free ↦ rw free (also nothing (insert new q free refl))
]

pub Writes-insert :
    (now : Text) (new : Operation) → new.status ≡ queued → Writes now (insert_operation new)
Writes-insert now new q = record { at = λ s. insert-Changes now new s q }

pub ruleset chain = (
  Writes-return, Writes-throw, Writes-reads, Writes-or_fail, Writes-attempt, Writes-with_tx,
  Writes-if, Writes-guard, Writes-or_reason, Writes-bind, Writes-try_one, Writes-get_node,
)
