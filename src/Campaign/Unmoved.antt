-- ===== src/Campaign/Unmoved.antt =====
-- A dispatch that reports nothing done has changed nothing.
use box_fleet.Base.{
  ℕ, ◌≡◌, refl, Text, Bool, true, false, not, ◌||◌, List, [], ◌∷◌, if◌then◌else◌, arith,
}
use box_fleet.Platform.{Platform}
use box_fleet.Database.{
  Store, Node, Result, ok, err, no_rows, active_operation, M, ◌>>=◌, return, throw,
}
use box_fleet.Operation.Calls.{OperationView}
use box_fleet.Campaign.Sql.{MemberView, Detail}
use box_fleet.Campaign.Reconcile.{attach_created, dispatch_to, dispatch_member, dispatch_all}

abbrev pub says_no : Result Bool → Bool
says_no (ok b) = not b
says_no (err e) = false

-- It never returns false.
pub record IsBusy (m : M Bool) : Type 0 where
  pub at : (s : Store) → says_no (m s).0 ≡ false

pub record IsUnmoved (m : M Bool) : Type 0 where
  pub at : (s : Store) → says_no (m s).0 ≡ true → (m s).1 ≡ s

IsBusy-return : IsBusy (return true)
unfolding return
IsBusy-return = record { at = λ s. refl }

IsBusy-throw : (e : _) → IsBusy (throw e)
unfolding throw
IsBusy-throw e = record { at = λ s. refl }

IsBusy-if : (b : Bool) (m n : M Bool) → IsBusy m → IsBusy n → IsBusy (if b then m else n)
IsBusy-if true m n h k = h
IsBusy-if false m n h k = k

bind-says_no :
    {A : Type 0} (m : M A) (f : A → M Bool) (s : Store) (r : Result A) (t : Store)
    → m s ≡ (r, t)
    → ((a : A) → IsBusy (f a))
    → says_no ((m >>= f) s).0 ≡ false
unfolding ◌>>=◌
bind-says_no m f s (ok a) t e w = rw e ((w a).at t)
bind-says_no m f s (err z) t e w = rw e refl

IsBusy-bind : {A : Type 0} (m : M A) (f : A → M Bool) → ((a : A) → IsBusy (f a)) → IsBusy (m >>= f)
IsBusy-bind m f w = record { at = λ s. bind-says_no m f s (m s).0 (m s).1 refl w }

IsUnmoved-IsBusy : (m : M Bool) → IsBusy m → IsUnmoved m
IsUnmoved-IsBusy m w = record { at = λ s h. cc (w.at s) }

IsUnmoved-return : (b : Bool) → IsUnmoved (return b)
unfolding return
IsUnmoved-return b = record { at = λ s h. refl }

IsUnmoved-if :
    (b : Bool) (m n : M Bool) → IsUnmoved m → IsUnmoved n → IsUnmoved (if b then m else n)
IsUnmoved-if true m n h k = h
IsUnmoved-if false m n h k = k

ruleset busy = (IsBusy-return, IsBusy-throw, IsBusy-if, IsBusy-bind)

module _ (p : Platform) (now : ℕ) (ids : Text → Text) (c : Text) where
  IsBusy-attach_created :
      (v : MemberView) (r : Result (OperationView × Bool)) → IsBusy (attach_created p now ids c v r)
  unfolding attach_created
  IsBusy-attach_created v (err active_operation) = search busy
  IsBusy-attach_created v (err _) = search busy
  IsBusy-attach_created v (ok (op, created)) = search busy

  IsBusy-dispatch_to :
      (d : Detail) (v : MemberView) (r : Result Node) → IsBusy (dispatch_to p now ids c d v r)
  unfolding dispatch_to
  IsBusy-dispatch_to d v (err no_rows) = search busy
  IsBusy-dispatch_to d v (err _) = search busy
  IsBusy-dispatch_to d v (ok n) = search (busy, IsBusy-attach_created)

  IsUnmoved-dispatch_member :
      (d : Detail) (v : MemberView) → IsUnmoved (dispatch_member p now ids c d v)
  unfolding dispatch_member
  IsUnmoved-dispatch_member d v =
      search (IsUnmoved-if, IsUnmoved-return, IsUnmoved-IsBusy, busy, IsBusy-dispatch_to) depth 9

  either-IsUnmoved :
      (m n : M Bool) (s : Store) (r q : Result Bool) (t u : Store)
      → m s ≡ (r, t)
      → n t ≡ (q, u)
      → (says_no r ≡ true → t ≡ s)
      → (says_no q ≡ true → u ≡ t)
      → says_no ((m >>= λ one. n >>= λ rest. return (one || rest)) s).0 ≡ true
      → ((m >>= λ one. n >>= λ rest. return (one || rest)) s).1 ≡ s
  unfolding ◌>>=◌
  either-IsUnmoved m n s (ok a) (ok b) t u e f h k w = ground arith
  either-IsUnmoved m n s (ok a) (err z) t u e f h k w = ground arith
  either-IsUnmoved m n s (err y) q t u e f h k w = ground arith

  pub IsUnmoved-dispatch_all :
      (d : Detail) (vs : List MemberView) → IsUnmoved (dispatch_all p now ids c d vs)
  unfolding dispatch_all
  IsUnmoved-dispatch_all d [] = IsUnmoved-return false
  IsUnmoved-dispatch_all d (v ∷ vs) = record {
    at = λ s.
        either-IsUnmoved _ _ s _ _ _ _ refl refl ((IsUnmoved-dispatch_member d v).at s)
          ((IsUnmoved-dispatch_all d vs).at _);
  }
