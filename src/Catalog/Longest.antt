-- ===== src/Catalog/Longest.antt =====
-- The rule that lookupSuffix finds is the one of the longest suffix that has a rule.
use box_fleet.Base.{
  ℕ, ◌≡◌, refl, sym, ap, Text, none, some, [], ◌∷◌, ◌==◌, length, length-append, get_key, arith,
  inl, inr, Option-cases, Bool-cases, ◌<◌, ◌++◌,
}
use box_fleet.Catalog.{Entry, Rules, lookup_suffix}
use box_fleet.Catalog.Suffix.{
  after_dots, label_suffixes, first_rule, lookup_suffix-first_rule, whole, after_dot, IsLongestRule,
}

-- What IsLongestRule says of the suffixes after a dot.
record IsLongestAfter (rules : Rules) (t : Text) (e : Entry) : Type 0 where
  pub front : Text
  pub suffix : Text
  pub cut_there : t ≡ front ++ (b'.' ∷ suffix)
  pub rule : get_key suffix rules ≡ some e
  pub longest :
      (f s : Text) → t ≡ f ++ (b'.' ∷ s) → length suffix < length s → get_key s rules ≡ none

shorter_suffix : (t f s : Text) → t ≡ f ++ (b'.' ∷ s) → length s < length t
shorter_suffix t f s e = rw e (omega (arith, length-append f (b'.' ∷ s)))

longer_has_none :
    (rules : Rules) (c : ℕ) (t : Text) (n : ℕ)
    → ((f s : Text) → t ≡ f ++ (b'.' ∷ s) → n < length s → get_key s rules ≡ none)
    → (c ≡ b'.' → get_key t rules ≡ none)
    → (f s : Text) → c ∷ t ≡ f ++ (b'.' ∷ s)
    → n < length s
    → get_key s rules ≡ none
longer_has_none rules c t n longest no_rule [] s e h =
    let same_tail : t ≡ s = cc in rw (sym same_tail) (no_rule cc)
longer_has_none rules c t n longest no_rule (d ∷ f) s e h =
    let same_tail : t ≡ f ++ (b'.' ∷ s) = cc in longest f s same_tail h

one_more_after :
    (rules : Rules) (c : ℕ) (t : Text) (e : Entry)
    → IsLongestAfter rules t e
    → (c ≡ b'.' → get_key t rules ≡ none)
    → IsLongestAfter rules (c ∷ t) e
one_more_after rules c t e v no_rule = record {
  front = c ∷ v.front;
  suffix = v.suffix;
  cut_there = ap (λ x. c ∷ x) v.cut_there;
  rule = v.rule;
  longest = longer_has_none rules c t (length v.suffix) v.longest no_rule;
}

right_after :
    (rules : Rules) (t : Text) (e : Entry)
    → get_key t rules ≡ some e
    → IsLongestAfter rules (b'.' ∷ t) e
right_after rules t e h = record {
  front = [];
  suffix = t;
  cut_there = refl;
  rule = h;
  longest = λ f s cut_there longer. ground (arith, shorter_suffix (b'.' ∷ t) f s cut_there);
}

longest_after :
    (rules : Rules) (t : Text) (e : Entry)
    → first_rule rules (after_dots t) ≡ some e
    → IsLongestAfter rules t e
unfolding first_rule after_dots
longest_after rules [] e h = cc
longest_after rules (c ∷ []) e h = ground arith
longest_after rules (c ∷ d ∷ t) e h = elim (Bool-cases (c == b'.')) [
  | inl dot ↦ elim (Option-cases (get_key (d ∷ t) rules)) [
    | inl gone ↦
        one_more_after rules c (d ∷ t) e (longest_after rules (d ∷ t) e (ground arith)) (λ _. gone)
    | inr (g, there) ↦
        let dot_first : c ≡ b'.' = ground arith in
        rw dot_first (right_after rules (d ∷ t) e (ground arith))
  ]
  | inr other ↦
      one_more_after rules c (d ∷ t) e (longest_after rules (d ∷ t) e (ground arith)) (ground arith)
]

-- Where lookupSuffix finds a rule, it is the rule of a suffix of the name that is the whole name or
-- follows a dot, and no longer such suffix has a rule.
pub lookup_suffix-IsLongestRule :
    (rules : Rules) (name : Text) (e : Entry)
    → lookup_suffix rules name ≡ some e
    → IsLongestRule rules name e
unfolding first_rule label_suffixes
lookup_suffix-IsLongestRule rules [] e h = let found = sym (lookup_suffix-first_rule rules []) in cc
lookup_suffix-IsLongestRule rules (c ∷ t) e h = elim (Option-cases (get_key (c ∷ t) rules)) [
  | inl gone ↦
      let v =
        longest_after rules (c ∷ t) e (ground (arith, lookup_suffix-first_rule rules (c ∷ t))) in
      record {
        suffix = v.suffix;
        boundary = after_dot v.front v.cut_there;
        rule = v.rule;
        longest = λ s boundary longer. elim boundary [
          | whole same_name ↦ rw same_name gone
          | after_dot f cut_there ↦ v.longest f s cut_there longer
        ];
      }
  | inr (g, there) ↦ record {
    suffix = c ∷ t;
    boundary = whole refl;
    rule = ground (arith, lookup_suffix-first_rule rules (c ∷ t));
    longest = λ s boundary longer. elim boundary [
      | whole same_name ↦ ground (arith, ap (λ (u : Text). length u) same_name)
      | after_dot f cut_there ↦ ground (arith, shorter_suffix (c ∷ t) f s cut_there)
    ];
  }
]
