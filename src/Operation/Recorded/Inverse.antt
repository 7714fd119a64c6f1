-- ===== src/Operation/Recorded/Inverse.antt =====
-- What the result of a method says of its parts.
use box_fleet.Base.{◌≡◌, ◌⊎◌, refl, ◌∙◌, Option, none, some, arith, inl, inr}
use box_fleet.Database.{Store, Failure, Result, ok, err, M, ◌>>=◌, or_fail, return, with_tx}

result_cases :
    {A : Type 0} (r : Result A × Store)
    → ((e : Failure) × (t : Store) × (r ≡ (err e, t))) ⊎ ((a : A) × (t : Store) × (r ≡ (ok a, t)))
result_cases (ok a, t) = inr (a, t, refl)
result_cases (err e, t) = inl (e, t, refl)

module _ {A B : Type 0} where
  pub bind_ok :
      (m : M A) (f : A → M B) (s : Store) (b : B) (u : Store)
      → (m >>= f) s ≡ (ok b, u)
      → (a : A) × (t : Store) × (m s ≡ (ok a, t)) × (f a t ≡ (ok b, u))
  unfolding ◌>>=◌
  bind_ok m f s b u h = elim (result_cases (m s)) [
    | inl (e, t, k) ↦ let failed = rw k at h in ground arith
    | inr (a, t, k) ↦ (a, t, k, rw k at h)
  ]

  pub bind_cases :
      (m : M A) (f : A → M B) (s : Store)
      → ((e : Failure) × (t : Store) × (m s ≡ (err e, t)) × ((m >>= f) s ≡ (err e, t)))
        ⊎ ((a : A) × (t : Store) × (m s ≡ (ok a, t)) × ((m >>= f) s ≡ f a t))
  unfolding ◌>>=◌
  bind_cases m f s = elim (result_cases (m s)) [
    | inl (e, t, k) ↦ inl (e, t, k, rw k refl)
    | inr (a, t, k) ↦ inr (a, t, k, rw k refl)
  ]

pub or_fail_ok :
    {A : Type 0} (o : Option A) (e : Failure) (s : Store) (a : A) (t : Store)
    → or_fail o e s ≡ (ok a, t)
    → o ≡ some a
unfolding or_fail
or_fail_ok none e s a t h = ground arith
or_fail_ok (some b) e s a t h = ground arith

pub return_ok : {A : Type 0} (a b : A) (s t : Store) → return a s ≡ (ok b, t) → a ≡ b
unfolding return
return_ok a b s t h = ground arith

pub with_tx_ok :
    {A : Type 0} (m : M A) (s : Store) (a : A) (t : Store)
    → with_tx m s ≡ (ok a, t)
    → m s ≡ (ok a, t)
unfolding with_tx
with_tx_ok m s a t h = elim (result_cases (m s)) [
  | inl (e, u, k) ↦ let failed = rw k at h in ground arith
  | inr (b, u, k) ↦ k ∙ (rw k at h)
]

pub with_tx_err :
    {A : Type 0} (m : M A) (s : Store) (e : Failure) (t : Store) → with_tx m s ≡ (err e, t) → t ≡ s
unfolding with_tx
with_tx_err m s e t h = elim (result_cases (m s)) [
  | inl (x, u, k) ↦ let failed = rw k at h in ground arith
  | inr (b, u, k) ↦ let done = rw k at h in ground arith
]
