-- ===== src/Base/Rows.antt =====
-- A table as the list of its rows: SELECT ... LIMIT 1, UPDATE ... WHERE, COUNT(*).
use Prim.Native.Nat.{ℕ, ◌+◌, ◌≤◌, ◌<◌}
use mathlib.Core.Path.{◌≡◌, refl, subst}
use mathlib.Core.Logic.{inl, inr}
use mathlib.Core.Bool.{Bool, true, false}
use mathlib.Core.Option.{Option, none, some}
use mathlib.Core.List.{List, [], ◌∷◌, ◌++◌}
use native.Mathlib.Omega.{arith}
use box_fleet.Base.Tests.{if◌then◌else◌, Bool-cases}

module _ {ℓ} {A : Type ℓ} where
  -- The first row that passes the test.
  unfoldable pub find_row : (A → Bool) → List A → Option A
  find_row p [] = none
  find_row p (x ∷ xs) = if p x then some x else find_row p xs

  unfoldable pub update_rows : (A → Bool) → (A → A) → List A → List A
  update_rows p f [] = []
  update_rows p f (x ∷ xs) = (if p x then f x else x) ∷ update_rows p f xs

  unfoldable pub count_rows : (A → Bool) → List A → ℕ
  count_rows p [] = 0
  count_rows p (x ∷ xs) = (if p x then 1 else 0) + count_rows p xs

  unfoldable pub any_row : (A → Bool) → List A → Bool
  any_row p [] = false
  any_row p (x ∷ xs) = if p x then true else any_row p xs

  -- The rows that pass the test, in order.
  unfoldable pub keep_rows : (A → Bool) → List A → List A
  keep_rows p [] = []
  keep_rows p (x ∷ xs) = let rest = keep_rows p xs in if p x then x ∷ rest else rest

  abbrev pub All {κ} : (A → Type κ) → List A → Type κ
  All P [] = Unit
  All P (x ∷ xs) = P x × All P xs

module _ {ℓ} {A : Type ℓ} where
  pub find_row-holds : (p : A → Bool) (xs : List A) (x : A) → find_row p xs ≡ some x → p x ≡ true
  unfolding find_row
  find_row-holds p [] x h = cc
  find_row-holds p (y ∷ xs) x h = ground (arith, find_row-holds p xs x)

  pub find_row-All {κ} :
      (P : A → Type κ) (p : A → Bool) (xs : List A) (x : A)
      → All P xs
      → find_row p xs ≡ some x
      → P x
  unfolding find_row
  find_row-All P p [] x a h = cc
  find_row-All P p (y ∷ xs) x a h = elim (Bool-cases (p y)) [
    | inl hit ↦ let e : y ≡ x = ground arith in subst P e a.0
    | inr miss ↦ find_row-All P p xs x a.1 (rw miss at h)
  ]

  pub count_rows-find_row :
      (p : A → Bool) (xs : List A) → find_row p xs ≡ none → count_rows p xs ≡ 0
  unfolding find_row count_rows
  count_rows-find_row p [] h = refl
  count_rows-find_row p (y ∷ xs) h = ground (arith, count_rows-find_row p xs)

  pub count_rows-append :
      (p : A → Bool) (xs ys : List A) → count_rows p (xs ++ ys) ≡ count_rows p xs + count_rows p ys
  unfolding count_rows
  count_rows-append p [] ys = omega arith
  count_rows-append p (x ∷ xs) ys = omega (arith, count_rows-append p xs ys)

  -- An update that makes no row pass the count leaves it no larger.
  pub count_rows-update_rows-le :
      (c p : A → Bool) (f : A → A) (xs : List A)
      → ((x : A) → p x ≡ true → c (f x) ≡ true → c x ≡ true)
      → count_rows c (update_rows p f xs) ≤ count_rows c xs
  unfolding count_rows update_rows
  count_rows-update_rows-le c p f [] h = omega arith
  count_rows-update_rows-le c p f (x ∷ xs) h =
      ground (arith, count_rows-update_rows-le c p f xs h, h x)

  -- A row that an update does not touch is still there, and still the first that is found.
  pub find_row-update_rows_other :
      (q p : A → Bool) (f : A → A) (xs : List A) (x : A)
      → ((y : A) → p y ≡ true → q (f y) ≡ q y)
      → find_row q xs ≡ some x
      → p x ≡ false
      → find_row q (update_rows p f xs) ≡ some x
  unfolding find_row update_rows
  find_row-update_rows_other q p f [] x h e k = cc
  find_row-update_rows_other q p f (y ∷ xs) x h e k =
      ground (arith, find_row-update_rows_other q p f xs x h, h y)

  pub find_row-update_rows :
      (q p : A → Bool) (f : A → A) (xs : List A) (x : A)
      → ((y : A) → p y ≡ true → q (f y) ≡ q y)
      → find_row q xs ≡ some x
      → p x ≡ true
      → find_row q (update_rows p f xs) ≡ some (f x)
  unfolding find_row update_rows
  find_row-update_rows q p f [] x h e k = cc
  find_row-update_rows q p f (y ∷ xs) x h e k =
      ground (arith, find_row-update_rows q p f xs x h, h y)

  pub find_row-append :
      (q : A → Bool) (xs ys : List A) (x : A)
      → find_row q xs ≡ some x
      → find_row q (xs ++ ys) ≡ some x
  unfolding find_row
  find_row-append q [] ys x h = cc
  find_row-append q (y ∷ xs) ys x h = ground (arith, find_row-append q xs ys x)

  pub find_row-append_none :
      (q : A → Bool) (xs ys : List A) → find_row q xs ≡ none → find_row q (xs ++ ys) ≡ find_row q ys
  unfolding find_row
  find_row-append_none q [] ys h = refl
  find_row-append_none q (y ∷ xs) ys h = ground (arith, find_row-append_none q xs ys)

  pub count_rows-any_row :
      (q p : A → Bool) (xs : List A)
      → ((x : A) → q x ≡ true → p x ≡ true)
      → any_row p xs ≡ false
      → count_rows q xs ≡ 0
  unfolding count_rows any_row
  count_rows-any_row q p [] h e = refl
  count_rows-any_row q p (x ∷ xs) h e = ground (arith, count_rows-any_row q p xs h, h x)

  pub find_row-any_row :
      (q p : A → Bool) (xs : List A)
      → ((x : A) → q x ≡ true → p x ≡ true)
      → any_row p xs ≡ false
      → find_row q xs ≡ none
  unfolding find_row any_row
  find_row-any_row q p [] h e = refl
  find_row-any_row q p (x ∷ xs) h e = ground (arith, find_row-any_row q p xs h, h x)

  pub count_rows-find_row-some :
      (p : A → Bool) (xs : List A) (x : A) → find_row p xs ≡ some x → 0 < count_rows p xs
  unfolding find_row count_rows
  count_rows-find_row-some p [] x h = cc
  count_rows-find_row-some p (y ∷ xs) x h = ground (arith, count_rows-find_row-some p xs x)

  pub any_row-find_row : (p : A → Bool) (xs : List A) → find_row p xs ≡ none → any_row p xs ≡ false
  unfolding find_row any_row
  any_row-find_row p [] h = refl
  any_row-find_row p (x ∷ xs) h = ground (arith, any_row-find_row p xs)

  -- A row that one search finds is enough for another search to find some row.
  pub find_row-also :
      (q p : A → Bool) (xs : List A) (x : A)
      → find_row p xs ≡ some x
      → q x ≡ true
      → (y : A) × (find_row q xs ≡ some y)
  unfolding find_row
  find_row-also q p [] x h k = cc
  find_row-also q p (y ∷ xs) x h k = elim (Bool-cases (q y)) [
    | inl hit ↦ (y, rw hit)
    | inr miss ↦ rw miss (find_row-also q p xs x (ground arith) k)
  ]

  -- A search that no updated row passes, before or after, finds the same.
  pub find_row-update_rows_apart :
      (q p : A → Bool) (f : A → A) (xs : List A)
      → ((y : A) → p y ≡ true → (q y ≡ false) × (q (f y) ≡ false))
      → find_row q (update_rows p f xs) ≡ find_row q xs
  unfolding find_row update_rows
  find_row-update_rows_apart q p f [] h = refl
  find_row-update_rows_apart q p f (x ∷ xs) h =
      ground (arith, find_row-update_rows_apart q p f xs h, h x)

  pub All-update_rows {κ} :
      (P : A → Type κ) (p : A → Bool) (f : A → A) (xs : List A)
      → ((x : A) → P x → P (f x))
      → All P xs
      → All P (update_rows p f xs)
  unfolding update_rows
  All-update_rows P p f [] h a = tt
  All-update_rows P p f (x ∷ xs) h a = (one (p x), All-update_rows P p f xs h a.1)
    where
      one : (b : Bool) → P (if b then f x else x)
      one true = h x a.0
      one false = a.0

  -- A row that is found and then passes another test when it is updated.
  pub any_row-update_rows :
      (q p : A → Bool) (f : A → A) (xs : List A) (x : A)
      → find_row p xs ≡ some x
      → q (f x) ≡ true
      → any_row q (update_rows p f xs) ≡ true
  unfolding find_row any_row update_rows
  any_row-update_rows q p f [] x h e = cc
  any_row-update_rows q p f (y ∷ xs) x h e = ground (arith, any_row-update_rows q p f xs x)
