-- ===== src/Catalog/Overrides.antt =====
-- What WithOverrides changes of Classify, and the service that a host is classified under.
use box_fleet.Base.{
  ◌≡◌, refl, Text, false, Option, none, some, List, [], ◌∷◌, ◌++◌, All, is_empty, arith, get_key,
  Option-cases, Bool-cases, inl, inr, same, same_iff, trim_space, put_key, ◌||◌,
}
use box_fleet.Catalog.{
  Entry, Rules, Catalog, Classification, HostRules, Override, lookup_suffix, normalized_overrides,
  with_overrides, replace_overrides, classify, classification, or_classify, by_ip, normalize_host,
  by_rules, by_public_suffix, override_entry, from_override, Source,
}
use box_fleet.Catalog.Parse.{parsed, parse}
use box_fleet.Catalog.Suffix.{IsLabelSuffix, first_rule, label_suffixes, lookup_suffix-first_rule}
use box_fleet.Catalog.Longest.{lookup_suffix-IsLongestRule}
use box_fleet.Catalog.Labelled.{
  IsServed, IsServedCatalog, get_key-IsServed, parse-IsServed, normalized_overrides-IsServed,
}

lookup_suffix-IsServed :
    (rules : Rules) (name : Text) (e : Entry)
    → IsServed rules
    → lookup_suffix rules name ≡ some e
    → is_empty e.service ≡ false
lookup_suffix-IsServed rules name e a h =
    let found = lookup_suffix-IsLongestRule rules name e h in
    get_key-IsServed rules found.suffix e a found.rule

or_classify-served :
    (o : Option Entry) (f : Source) (rest : Classification)
    → ((e : Entry) → o ≡ some e → is_empty e.service ≡ false)
    → is_empty rest.service ≡ false
    → is_empty (or_classify o f rest).service ≡ false
or_classify-served none f rest h k = k
or_classify-served (some e) f rest h k = h e refl

by_public_suffix-served :
    (o : Option Text) (name : Text)
    → is_empty name ≡ false
    → is_empty (by_public_suffix o name).service ≡ false
by_public_suffix-served none name h = h
by_public_suffix-served (some domain) name h = elim (Bool-cases (is_empty domain)) [
  | inl hit ↦ rw hit h
  | inr miss ↦ rw miss miss
]

by_rules-served :
    (h : HostRules) (c : Catalog) (name : Text)
    → IsServedCatalog c
    → is_empty name ≡ false
    → is_empty (by_rules h c name).service ≡ false
by_rules-served h c name v filled =
    or_classify-served (lookup_suffix c.overrides name) _ _
      (λ e i. lookup_suffix-IsServed c.overrides name e v.overrides i)
      (or_classify-served (get_key name c.exacts) _ _
        (λ e i. get_key-IsServed c.exacts name e v.exacts i)
        (or_classify-served (lookup_suffix c.suffixes name) _ _
          (λ e i. lookup_suffix-IsServed c.suffixes name e v.suffixes i)
          (by_public_suffix-served (h.effective_tld_plus_one name) name filled)))

by_ip-served :
    (o : Option Text) (rest : Classification)
    → ((ip : Text) → o ≡ some ip → is_empty ip ≡ false)
    → is_empty rest.service ≡ false
    → is_empty (by_ip o rest).service ≡ false
by_ip-served none rest h k = k
by_ip-served (some ip) rest h k = h ip refl

replace_overrides-IsServed :
    (c : Catalog) (rules : Rules)
    → IsServedCatalog c
    → IsServed rules
    → IsServedCatalog (replace_overrides c rules)
replace_overrides-IsServed c [] v a = v
replace_overrides-IsServed c (r ∷ rules) v a = record {
  suffixes = v.suffixes;
  exacts = v.exacts;
  overrides = a;
}

-- Whatever the data set's text and the operator's overrides, a catalog that parse accepts classifies
-- each host under a service that is not empty, if an address never prints as the empty text.
pub classify-served :
    (h : HostRules) (t : Text) (c : Catalog) (os : List Override) (host : Text)
    → ((name ip : Text) → h.canonical_ip name ≡ some ip → is_empty ip ≡ false)
    → parse t ≡ parsed c
    → is_empty (classify h (with_overrides c os) host).service ≡ false
unfolding classify with_overrides
classify-served h t c os host ips made =
    let name = normalize_host host in
    let v =
      replace_overrides-IsServed c (normalized_overrides os []) (parse-IsServed t c made)
        (normalized_overrides-IsServed os [] tt) in
    elim (Bool-cases (is_empty name)) [
      | inl hit ↦ rw hit refl
      | inr miss ↦ rw miss (
          by_ip-served (h.canonical_ip name) _ (ips name)
            (by_rules-served h (with_overrides c os) name v miss))
    ]

-- No rule's suffix is one of the name's on a label boundary.
abbrev pub AreApart : Text → Rules → Type 0
AreApart name = All (λ (r : Text × Entry). ¬ IsLabelSuffix r.0 name)

get_key-apart :
    (rules : Rules) (name k : Text)
    → AreApart name rules
    → IsLabelSuffix k name
    → get_key k rules ≡ none
unfolding get_key
get_key-apart [] name k a s = refl
get_key-apart ((j, e) ∷ rules) name k a s = elim (Bool-cases (same j k)) [
  | inl hit ↦ let same_key : j ≡ k = ground (arith, same_iff j k) in elim (a.0 (rw same_key s)) [ ]
  | inr miss ↦ rw miss (get_key-apart rules name k a.1 s)
]

lookup_suffix-apart :
    (rules : Rules) (name : Text) → AreApart name rules → lookup_suffix rules name ≡ none
lookup_suffix-apart rules name a = elim (Option-cases (lookup_suffix rules name)) [
  | inl gone ↦ gone
  | inr (e, there) ↦
      let found = lookup_suffix-IsLongestRule rules name e there in
      let gone = get_key-apart rules name found.suffix a found.boundary in
      ground (arith, found.rule)
]

normalized_overrides-apart :
    (os : List Override) (rules : Rules) (name : Text)
    → All (λ (o : Override). ¬ IsLabelSuffix (normalize_host o.suffix) name) os
    → AreApart name rules
    → AreApart name (normalized_overrides os rules)
unfolding normalized_overrides
normalized_overrides-apart [] rules name a b = b
normalized_overrides-apart (o ∷ os) rules name a b =
    elim (Bool-cases (is_empty (normalize_host o.suffix) || is_empty (trim_space o.service))) [
      | inl skipped ↦ rw skipped (normalized_overrides-apart os rules name a.1 b)
      | inr kept ↦ rw kept (
          normalized_overrides-apart os (put_key (normalize_host o.suffix) (override_entry o) rules)
            name a.1 (a.0, b))
    ]

by_rules-apart :
    (h : HostRules) (c : Catalog) (rules : Rules) (name : Text)
    → lookup_suffix c.overrides name ≡ none
    → lookup_suffix rules name ≡ none
    → by_rules h (replace_overrides c rules) name ≡ by_rules h c name
by_rules-apart h c [] name e k = refl
by_rules-apart h c (r ∷ rules) name e k = rw (e, k) refl

-- Overrides none of whose normalised suffixes is the host's name or follows a dot of it leave the
-- host's classification as it was without overrides, under any data set.
pub classify-apart :
    (h : HostRules) (c : Catalog) (os : List Override) (host : Text)
    → c.overrides ≡ []
    → All (λ (o : Override). ¬ IsLabelSuffix (normalize_host o.suffix) (normalize_host host)) os
    → classify h (with_overrides c os) host ≡ classify h c host
unfolding classify with_overrides lookup_suffix
classify-apart h c os host e a =
    let name = normalize_host host in
    let rules = normalized_overrides os [] in
    let apart = lookup_suffix-apart rules name (normalized_overrides-apart os [] name a tt) in
    let same_rules = by_rules-apart h c rules name (rw e refl) apart in rw same_rules refl

normalized_overrides-last :
    (os : List Override) (o : Override) (rules : Rules)
    → is_empty (normalize_host o.suffix) ≡ false
    → is_empty (trim_space o.service) ≡ false
    → normalized_overrides (os ++ (o ∷ [])) rules
      ≡ put_key (normalize_host o.suffix) (override_entry o) (normalized_overrides os rules)
unfolding normalized_overrides
normalized_overrides-last [] o rules h k = rw (h, k) refl
normalized_overrides-last (p ∷ os) o rules h k = normalized_overrides-last os o _ h k

lookup_suffix-own :
    (rules : Rules) (name : Text) (e : Entry)
    → is_empty name ≡ false
    → lookup_suffix (put_key name e rules) name ≡ some e
unfolding first_rule label_suffixes get_key
lookup_suffix-own rules [] e h = cc
lookup_suffix-own rules (c ∷ t) e h =
    rw (lookup_suffix-first_rule (put_key (c ∷ t) e rules) (c ∷ t))
      (ground (arith, same_iff (c ∷ t) (c ∷ t)))

-- A host that is no address is classified by the last override, if that has a service and its suffix
-- normalises to the host's whole name: over every other override and over the data set.
pub classify-override :
    (h : HostRules) (c : Catalog) (os : List Override) (o : Override) (host : Text)
    → normalize_host o.suffix ≡ normalize_host host
    → is_empty (normalize_host host) ≡ false
    → is_empty (trim_space o.service) ≡ false
    → h.canonical_ip (normalize_host host) ≡ none
    → classify h (with_overrides c (os ++ (o ∷ []))) host
      ≡ classification (override_entry o) from_override
unfolding classify with_overrides
classify-override h c os o host same_name filled served no_ip =
    let last = normalized_overrides-last os o [] (rw same_name filled) served in
    let own =
      lookup_suffix-own (normalized_overrides os []) (normalize_host host) (override_entry o)
        filled in
    rw (filled, no_ip, last, same_name, own) refl
