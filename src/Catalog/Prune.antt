-- ===== src/Catalog/Prune.antt =====
-- Leaving out rules that change nothing: pruneSuffixes of internal/servicecatalog/gen/main.go.
use box_fleet.Base.{
  ℕ, zero, suc, ◌≤◌, ◌<◌, ◌≡◌, refl, sym, ap, Text, same, Bool, not, Option, none, some, List, [],
  ◌∷◌, ◌++◌, map, if◌then◌else◌, length, get_key, is_empty, cut, keep_rows, arith, Option-cases,
  inl, inr,
}
use box_fleet.Catalog.{next_candidate}
use box_fleet.Catalog.Suffix.{label_suffixes, after_dots-cut, cut-shorter}
use box_fleet.Catalog.Write.{Service}

abbrev pub Owners : Type 0
Owners = List (Text × Text)

abbrev or_nothing : Option Text → Text
or_nothing none = []
or_nothing (some t) = t

-- parent
unfoldable pub parent : Text → Text
parent domain = or_nothing (next_candidate domain)

abbrev pub or_owner : Option Text → Text → Text
or_owner none rest = rest
or_owner (some key) rest = key

unfoldable pub scan_owner : ℕ → Text → Owners → Text
scan_owner zero domain owner = []
scan_owner (suc fuel) domain owner =
    let rest = scan_owner fuel (parent domain) owner in
    if is_empty domain then [] else or_owner (get_key domain owner) rest

-- nearestOwner: each round drops a byte at least.
abbrev pub nearest_owner : Text → Owners → Text
nearest_owner domain owner = scan_owner (length domain) domain owner

-- Whether the nearest rule above a domain belongs to another service.
abbrev pub is_needed : Text → Owners → Text → Bool
is_needed key owner domain = not (same (nearest_owner (parent domain) owner) key)

-- pruneSuffixes
unfoldable pub prune_suffixes : Text → List Text → Owners → List Text
prune_suffixes key domains owner = keep_rows (is_needed key owner) domains

-- Whether the suffix rule over a domain belongs to another service.
abbrev pub is_exact_needed : Text → Owners → Text → Bool
is_exact_needed key owner domain = not (same (nearest_owner domain owner) key)

-- pruneExacts
unfoldable pub prune_exacts : Text → List Text → Owners → List Text
prune_exacts key domains owner = keep_rows (is_exact_needed key owner) domains

-- The map `suffixOwner` of build: each service's domains with its key.
unfoldable pub owners : List Service → Owners
owners [] = []
owners (s ∷ ss) = map (λ d. (d, s.key)) s.suffixes ++ owners ss

abbrev pub pruned : Owners → Service → Service
pruned owner s = record {
  key = s.key;
  label = s.label;
  category = s.category;
  suffixes = prune_suffixes s.key s.suffixes owner;
  exacts = prune_exacts s.key s.exacts owner;
}

-- The map `exactOwner` of build.
unfoldable pub exact_owners : List Service → Owners
exact_owners [] = []
exact_owners (s ∷ ss) = map (λ d. (d, s.key)) s.exacts ++ exact_owners ss

-- The services as build prunes their rules.
abbrev pub pruned_services : List Service → List Service
pruned_services ss = map (pruned (owners ss)) ss

unfoldable pub first_owner : Owners → List Text → Text
first_owner owner [] = []
first_owner owner (s ∷ ss) = or_owner (get_key s owner) (first_owner owner ss)

pub label_suffixes-parent :
    (c : ℕ) (t : Text) → label_suffixes (c ∷ t) ≡ (c ∷ t) ∷ label_suffixes (parent (c ∷ t))
unfolding label_suffixes parent
label_suffixes-parent c t = elim (Option-cases (cut b'.' (c ∷ t))) [
  | inl gone ↦ rw (after_dots-cut (c ∷ t), gone) refl
  | inr ((a, b), there) ↦ rw (after_dots-cut (c ∷ t), there) refl
]

pub parent-shorter : (c : ℕ) (t : Text) → length (parent (c ∷ t)) < length (c ∷ t)
unfolding parent
parent-shorter c t = elim (Option-cases (cut b'.' (c ∷ t))) [
  | inl gone ↦ rw gone (omega arith)
  | inr ((a, b), there) ↦ rw there (cut-shorter b'.' (c ∷ t) a b there)
]

pub scan_owner-first_owner :
    (fuel : ℕ) (d : Text) (owner : Owners)
    → length d ≤ fuel
    → scan_owner fuel d owner ≡ first_owner owner (label_suffixes d)
unfolding scan_owner first_owner label_suffixes
scan_owner-first_owner zero [] owner h = refl
scan_owner-first_owner zero (c ∷ t) owner h = ground arith
scan_owner-first_owner (suc fuel) [] owner h = refl
scan_owner-first_owner (suc fuel) (c ∷ t) owner h =
    rw (scan_owner-first_owner fuel (parent (c ∷ t)) owner (omega (arith, parent-shorter c t)))
      (ap (λ l. first_owner owner l) (sym (label_suffixes-parent c t)))

-- The service that the rules give a name, by an exact rule or by the nearest suffix.
abbrev pub name_owner : List Service → Text → Text
name_owner ss name = or_owner (get_key name (exact_owners ss)) (nearest_owner name (owners ss))

-- Each domain has one owner.
abbrev pub IsClaimedOnce : Owners → Type 0
IsClaimedOnce [] = Unit
IsClaimedOnce ((d, key) ∷ owner) = (get_key d owner ≡ none) × IsClaimedOnce owner
