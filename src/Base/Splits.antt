-- ===== src/Base/Splits.antt =====
-- Cutting and splitting texts that were put together from parts without the separator.
use Prim.Native.Nat.{ℕ, zero, suc, ◌+◌, ◌/◌, ◌%◌}
use mathlib.Core.Path.{◌≡◌, refl}
use mathlib.Core.Bool.{Bool, true, false, ◌&&◌, not}
use mathlib.Core.List.{[], ◌∷◌, ◌++◌}
use mathlib.Core.Option.{none, some}
use native.Mathlib.Omega.{arith}
use box_fleet.Base.Tests.{leb, ◌==◌}
use box_fleet.Base.Bytes.{Text}
use box_fleet.Base.Strings.{trim_right, cut, split, digits, decimal}

unfoldable pub lacks : ℕ → Text → Bool
lacks b [] = true
lacks b (c ∷ t) = not (c == b) && lacks b t

pub lacks-append :
    (b : ℕ) (x y : Text) → lacks b x ≡ true → lacks b y ≡ true → lacks b (x ++ y) ≡ true
unfolding lacks
lacks-append b [] y h k = k
lacks-append b (c ∷ x) y h k = ground (arith, lacks-append b x y)

pub split-append : (b : ℕ) (l t : Text) → lacks b l ≡ true → split b (l ++ (b ∷ t)) ≡ l ∷ split b t
unfolding lacks split
split-append b [] t h = ground arith
split-append b (c ∷ l) t h = ground (arith, split-append b l t)

pub split-lacks : (b : ℕ) (l : Text) → lacks b l ≡ true → split b l ≡ l ∷ []
unfolding lacks split
split-lacks b [] h = refl
split-lacks b (c ∷ l) h = ground (arith, split-lacks b l)

pub cut-append : (b : ℕ) (l t : Text) → lacks b l ≡ true → cut b (l ++ (b ∷ t)) ≡ some (l, t)
unfolding lacks cut
cut-append b [] t h = ground arith
cut-append b (c ∷ l) t h = ground (arith, cut-append b l t)

pub cut-lacks : (b : ℕ) (l : Text) → lacks b l ≡ true → cut b l ≡ none
unfolding lacks cut
cut-lacks b [] h = refl
cut-lacks b (c ∷ l) h = ground (arith, cut-lacks b l)

pub trim_right-lacks : (b : ℕ) (t : Text) → lacks b t ≡ true → trim_right (λ c. c == b) t ≡ t
unfolding lacks trim_right
trim_right-lacks b [] h = refl
trim_right-lacks b (c ∷ t) h = ground (arith, trim_right-lacks b t)

lacks-digits : (b fuel n : ℕ) → (leb 48 b && leb b 57) ≡ false → lacks b (digits fuel n) ≡ true
unfolding lacks digits
lacks-digits b zero n h = refl
lacks-digits b (suc fuel) n h = ground (
  arith,
  lacks-digits b fuel (n / 10) h,
  lacks-append b (digits fuel (n / 10)) ((48 + n % 10) ∷ []),
)

pub lacks-decimal : (b n : ℕ) → (leb 48 b && leb b 57) ≡ false → lacks b (decimal n) ≡ true
unfolding lacks decimal
lacks-decimal b n h = ground (arith, lacks-digits b n n h)
