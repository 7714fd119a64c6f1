-- ===== src/Base/Strings.antt =====
-- More of package strings, on ASCII text: ToLower, Trim, Cut, Split, Join, HasPrefix; and Go maps from
-- strings as lists of pairs, the last one put first.
use Prim.Native.Nat.{ℕ, zero, suc, ◌+◌, ◌/◌, ◌%◌}
use mathlib.Core.Path.{◌≡◌, refl}
use mathlib.Core.Bool.{Bool, true, false, ◌&&◌}
use mathlib.Core.List.{List, [], ◌∷◌, ◌++◌}
use mathlib.Core.Option.{Option, none, some}
use native.Mathlib.Omega.{arith}
use box_fleet.Base.Tests.{leb, ◌==◌, if◌then◌else◌}
use box_fleet.Base.Bytes.{Text, text, same}

abbrev pub lower_byte : ℕ → ℕ
lower_byte c = if leb b'A' c && leb c b'Z' then c + 32 else c

unfoldable pub digits : ℕ → ℕ → Text
digits zero n = []
digits (suc fuel) n =
    let rest = digits fuel (n / 10) in (if n == 0 then [] else rest ++ ((48 + n % 10) ∷ []))

-- %d: a number has fewer digits than its value and one more.
unfoldable pub decimal : ℕ → Text
unfolding digits
decimal n = if n == 0 then text "0" else digits n n

-- strings.ToLower
unfoldable pub lower : Text → Text
lower [] = []
lower (c ∷ t) = lower_byte c ∷ lower t

pub lower_idem : (t : Text) → lower (lower t) ≡ lower t
unfolding lower
lower_idem [] = refl
lower_idem (c ∷ t) = ground (arith, lower_idem t)

-- strings.TrimLeftFunc
unfoldable pub drop_bytes : (ℕ → Bool) → Text → Text
drop_bytes p [] = []
drop_bytes p (c ∷ t) = if p c then drop_bytes p t else c ∷ t

abbrev pub is_empty : Text → Bool
is_empty [] = true
is_empty (c ∷ t) = false

-- strings.TrimRightFunc
unfoldable pub trim_right : (ℕ → Bool) → Text → Text
trim_right p [] = []
trim_right p (c ∷ t) = let rest = trim_right p t in if is_empty rest && p c then [] else c ∷ rest

-- strings.TrimFunc
abbrev pub trim_bytes : (ℕ → Bool) → Text → Text
trim_bytes p t = trim_right p (drop_bytes p t)

abbrev pub last_is : ℕ → Text → Bool
last_is b [] = false
last_is b (c ∷ []) = c == b
last_is b (c ∷ d ∷ t) = last_is b (d ∷ t)

unfoldable pub drop_last : Text → Text
drop_last [] = []
drop_last (c ∷ []) = []
drop_last (c ∷ d ∷ t) = c ∷ drop_last (d ∷ t)

unfoldable pub has_prefix : Text → Text → Bool
has_prefix [] t = true
has_prefix (c ∷ p) [] = false
has_prefix (c ∷ p) (d ∷ t) = (c == d) && has_prefix p t

abbrev pub before_cut : ℕ → Option (Text × Text) → Option (Text × Text)
before_cut c none = none
before_cut c (some (a, b)) = some (c ∷ a, b)

-- strings.Cut at one byte: none where the byte is not there.
unfoldable pub cut : ℕ → Text → Option (Text × Text)
cut b [] = none
cut b (c ∷ t) = let rest = cut b t in if c == b then some ([], t) else before_cut c rest

abbrev pub extend_first : ℕ → List Text → List Text
extend_first c [] = (c ∷ []) ∷ []
extend_first c (t ∷ ts) = (c ∷ t) ∷ ts

-- strings.Split at one byte: never empty.
unfoldable pub split : ℕ → Text → List Text
split b [] = [] ∷ []
split b (c ∷ t) = let rest = split b t in if c == b then [] ∷ rest else extend_first c rest

-- strings.Join with one byte.
unfoldable pub join : ℕ → List Text → Text
join b [] = []
join b (t ∷ []) = t
join b (t ∷ u ∷ ts) = t ++ (b ∷ join b (u ∷ ts))

module _ {ℓ} {V : Type ℓ} where
  unfoldable pub get_key : Text → List (Text × V) → Option V
  get_key k [] = none
  get_key k ((j, v) ∷ m) = if same j k then some v else get_key k m

  abbrev pub put_key : Text → V → List (Text × V) → List (Text × V)
  put_key k v m = (k, v) ∷ m
