-- ===== src/Base/Ints.antt =====
-- Go's int as an integer over the native numbers, and its order.
use Prim.Native.Nat.{ℕ, ◌+◌, ◌-◌, ◌%◌, ◌^◌}
use mathlib.Core.Path.{◌≡◌, refl}
use mathlib.Core.Bool.{Bool, true, false}
use box_fleet.Base.Tests.{ltb, if◌then◌else◌}

pub data ℤ : Type 0 where
  pos : ℕ → ℤ
  -- -(n + 1)
  negsuc : ℕ → ℤ

abbrev pub ltb_int : ℤ → ℤ → Bool
ltb_int (pos m) (pos n) = ltb m n
ltb_int (pos m) (negsuc n) = false
ltb_int (negsuc m) (pos n) = true
ltb_int (negsuc m) (negsuc n) = ltb n m

abbrev pub max_int : ℤ → ℤ → ℤ
max_int a b = if ltb_int a b then b else a

abbrev pub is_negative : ℤ → Bool
is_negative (pos n) = false
is_negative (negsuc n) = true

abbrev less_int : ℕ → ℕ → ℤ
less_int a b = if ltb b a then pos (a - b - 1) else negsuc (b - a)

-- The sum without a bound: a + b.
abbrev pub add_int : ℤ → ℤ → ℤ
add_int (pos a) (pos b) = pos (a + b)
add_int (pos a) (negsuc b) = less_int a b
add_int (negsuc a) (pos b) = less_int b a
add_int (negsuc a) (negsuc b) = negsuc (a + b + 1)

abbrev signed64 : ℕ → ℤ
signed64 w = if ltb w (2 ^ 63) then pos w else negsuc (2 ^ 64 - 1 - w)

-- An integer cut to 64 bits in two's complement.
abbrev pub wrap64 : ℤ → ℤ
wrap64 (pos n) = signed64 (n % (2 ^ 64))
wrap64 (negsuc n) = signed64 (2 ^ 64 - 1 - n % (2 ^ 64))

-- Go's + on int64.
abbrev pub add64 : ℤ → ℤ → ℤ
add64 a b = wrap64 (add_int a b)

test_add64 : add64 (pos (2 ^ 63 - 1)) (pos 1) ≡ negsuc (2 ^ 63 - 1)
test_add64 = refl

test_add64_negative : add64 (negsuc 0) (pos 5) ≡ pos 4
test_add64_negative = refl
