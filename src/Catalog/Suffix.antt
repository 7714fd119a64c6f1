-- ===== src/Catalog/Suffix.antt =====
-- The suffixes that lookupSuffix tries (internal/servicecatalog/catalog.go), described without its loop.
use box_fleet.Base.{
  ℕ, zero, suc, ◌≤◌, ◌≡◌, refl, sym, Text, not, ◌&&◌, Option, none, some, List, [], ◌∷◌, ◌==◌,
  length, if◌then◌else◌, cut, get_key, is_empty, arith, inl, inr, Option-cases, ◌<◌, ◌++◌,
}
use box_fleet.Catalog.{Entry, Rules, or_next, next_candidate, scan_suffixes, lookup_suffix}

-- What follows each dot of a name, but the empty text.
unfoldable pub after_dots : Text → List Text
after_dots [] = []
after_dots (c ∷ t) =
    let rest = after_dots t in if (c == b'.') && not (is_empty t) then t ∷ rest else rest

-- A name's suffixes on label boundaries, the longest first.
unfoldable pub label_suffixes : Text → List Text
label_suffixes [] = []
label_suffixes (c ∷ t) = (c ∷ t) ∷ after_dots (c ∷ t)

unfoldable pub first_rule : Rules → List Text → Option Entry
first_rule rules [] = none
first_rule rules (s ∷ ss) = or_next (get_key s rules) (first_rule rules ss)

abbrev pub suffixes_of : Option Text → List Text
suffixes_of none = []
suffixes_of (some t) = label_suffixes t

pub after_dots-cut : (t : Text) → after_dots t ≡ suffixes_of (next_candidate t)
unfolding after_dots label_suffixes cut
after_dots-cut [] = refl
after_dots-cut (c ∷ []) = ground arith
after_dots-cut (c ∷ d ∷ t) = elim (Option-cases (cut b'.' (d ∷ t))) [
  | inl gone ↦ rw gone (ground (arith, after_dots-cut (d ∷ t)))
  | inr ((a, b), there) ↦ ground (arith, after_dots-cut (d ∷ t))
]

pub cut-shorter : (b : ℕ) (t u v : Text) → cut b t ≡ some (u, v) → length v < length t
unfolding cut
cut-shorter b [] u v e = cc
cut-shorter b (c ∷ t) u v e = elim (Option-cases (cut b t)) [
  | inl gone ↦ ground arith
  | inr ((a, r), there) ↦ ground (arith, cut-shorter b t a r)
]

first_rule-label_suffixes :
    (rules : Rules) (t : Text)
    → first_rule rules (label_suffixes t) ≡ (
        if is_empty t
        then none
        else or_next (get_key t rules) (first_rule rules (suffixes_of (next_candidate t))))
unfolding label_suffixes first_rule
first_rule-label_suffixes rules [] = refl
first_rule-label_suffixes rules (c ∷ t) = rw (after_dots-cut (c ∷ t)) refl

scan_suffixes-first_rule :
    (fuel : ℕ) (rules : Rules) (t : Text)
    → length t ≤ fuel
    → scan_suffixes fuel rules t ≡ first_rule rules (label_suffixes t)
unfolding scan_suffixes first_rule label_suffixes
scan_suffixes-first_rule zero rules [] h = refl
scan_suffixes-first_rule zero rules (c ∷ t) h = ground arith
scan_suffixes-first_rule (suc fuel) rules [] h = refl
scan_suffixes-first_rule (suc fuel) rules (c ∷ t) h = elim (Option-cases (cut b'.' (c ∷ t))) [
  | inl gone ↦ rw (after_dots-cut (c ∷ t), gone) refl
  | inr ((a, b), there) ↦
      let shorter = cut-shorter b'.' (c ∷ t) a b there in
      rw (after_dots-cut (c ∷ t), there, scan_suffixes-first_rule fuel rules b (ground arith)) refl
]

no_rules : (ss : List Text) → first_rule [] ss ≡ none
unfolding first_rule get_key
no_rules [] = refl
no_rules (s ∷ ss) = no_rules ss

-- lookupSuffix returns the rule of the first suffix that has one, of the suffixes on label boundaries
-- taken the longest first; in particular its loop ends.
pub lookup_suffix-first_rule :
    (rules : Rules) (name : Text)
    → lookup_suffix rules name ≡ first_rule rules (label_suffixes name)
unfolding lookup_suffix
lookup_suffix-first_rule [] name = sym (no_rules (label_suffixes name))
lookup_suffix-first_rule (r ∷ rules) name =
    scan_suffixes-first_rule (length name) (r ∷ rules) name (omega arith)

-- The suffixes on label boundaries, as parts of the name.
pub data IsLabelSuffix (s name : Text) : Type 0 where
  whole : s ≡ name → IsLabelSuffix s name
  after_dot : (front : Text) → name ≡ front ++ (b'.' ∷ s) → IsLabelSuffix s name

-- The rule that a name is given: that of a suffix on a label boundary, where no longer one has a rule.
pub record IsLongestRule (rules : Rules) (name : Text) (e : Entry) : Type 0 where
  pub suffix : Text
  pub boundary : IsLabelSuffix suffix name
  pub rule : get_key suffix rules ≡ some e
  pub longest :
      (s : Text) → IsLabelSuffix s name → length suffix < length s → get_key s rules ≡ none
