-- ===== src/Base/Bytes.antt =====
-- Go strings as lists of bytes: equality, byte order, and the parts of package strings in use.
use Prim.Native.Nat.{ℕ}
use Prim.Native.Char.{code}
use Prim.Native.String.{String}
use mathlib.Core.Path.{◌≡◌, refl}
use mathlib.Core.Bool.{Bool, true, false, ◌&&◌, ◌||◌, not}
use mathlib.Core.List.{List, [], ◌∷◌, reverse}
use mathlib.Core.Logic.{◌↔◌}
use native.Mathlib.Omega.{arith}
use box_fleet.Base.Tests.{ltb, leb, ◌==◌, if◌then◌else◌}

abbrev pub Text : Type 0
Text = List ℕ

abbrev pub text : String → Text
text String.[] = []
text (String.◌∷◌ c s) = code c ∷ text s

unfoldable pub same : Text → Text → Bool
same [] [] = true
same (a ∷ x) (b ∷ y) = (a == b) && same x y
same _ _ = false

same_refl : (x : Text) → same x x ≡ true
unfolding same
same_refl [] = refl
same_refl (a ∷ x) = ground (arith, same_refl x)

same_sound : (x y : Text) → same x y ≡ true → x ≡ y
unfolding same
same_sound [] [] h = refl
same_sound [] (b ∷ y) h = cc
same_sound (a ∷ x) [] h = cc
same_sound (a ∷ x) (b ∷ y) h = ground (arith, same_sound x y)

pub same_iff : (x y : Text) → (same x y ≡ true) ↔ (x ≡ y)
same_iff x y = (same_sound x y, λ e. rw e (same_refl y))

-- Byte order, as Go and SQLite compare strings.
unfoldable pub before : Text → Text → Bool
before [] [] = false
before [] (b ∷ y) = true
before (a ∷ x) [] = false
before (a ∷ x) (b ∷ y) = ltb a b || ((a == b) && before x y)

pub before_irrefl : (x : Text) → before x x ≡ false
unfolding before
before_irrefl [] = refl
before_irrefl (a ∷ x) = ground (arith, before_irrefl x)

pub before_trans : (x y z : Text) → before x y ≡ true → before y z ≡ true → before x z ≡ true
unfolding before
before_trans [] [] z h k = cc
before_trans [] (b ∷ y) [] h k = cc
before_trans [] (b ∷ y) (c ∷ z) h k = refl
before_trans (a ∷ x) [] z h k = cc
before_trans (a ∷ x) (b ∷ y) [] h k = cc
before_trans (a ∷ x) (b ∷ y) (c ∷ z) h k = ground (arith, before_trans x y z)

pub before_total : (x y : Text) → before x y ≡ false → before y x ≡ false → x ≡ y
unfolding before
before_total [] [] h k = refl
before_total [] (b ∷ y) h k = cc
before_total (a ∷ x) [] h k = cc
before_total (a ∷ x) (b ∷ y) h k = ground (arith, before_total x y)

-- `x <= y` on strings.
abbrev pub upto : Text → Text → Bool
upto x y = not (before y x)

-- unicode.IsSpace, for the ASCII bytes.
abbrev pub is_space : ℕ → Bool
is_space c = (c == 32) || (leb 9 c && leb c 13)

abbrev pub drop_space : Text → Text
drop_space [] = []
drop_space (c ∷ x) = if is_space c then drop_space x else c ∷ x

-- strings.TrimSpace, for ASCII text.
unfoldable pub trim_space : Text → Text
trim_space x = reverse (drop_space (reverse (drop_space x)))

test_trim : trim_space (text " a b ") ≡ text "a b"
unfolding trim_space
test_trim = refl
