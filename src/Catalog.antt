-- ===== src/Catalog.antt =====
-- The service catalog (internal/servicecatalog/catalog.go): a host is mapped to a service by the
-- operator's overrides, the embedded data set, or its public suffix.
pub mod Parse
pub mod Write
mod Lines
mod Blocks
mod RoundTrip
mod Prune
mod Pruned
mod Labelled
mod Overrides
mod Examples
mod Suffix
mod Longest
use box_fleet.Base.{
  ℕ, ◌+◌, zero, suc, Text, text, same, trim_space, Bool, true, false, not, ◌&&◌, ◌||◌, Option, none,
  some, List, [], ◌∷◌, ◌++◌, ◌==◌, ltb, length, if◌then◌else◌, lower, trim_bytes, cut, get_key,
  put_key, is_empty, last_is, drop_last,
}

pub data Source : Type 0 where
  from_override from_catalog from_public_suffix from_ip from_nothing : Source

pub record Classification : Type 0 where
  pub service : Text
  pub label : Text
  pub category : Text
  pub source : Source

pub record Override : Type 0 where
  pub suffix : Text
  pub service : Text
  pub label : Text
  pub category : Text

pub record Entry : Type 0 where
  pub service : Text
  pub label : Text
  pub category : Text

abbrev pub Rules : Type 0
Rules = List (Text × Entry)

pub record Catalog : Type 0 where
  pub version : Text
  pub source : Text
  pub suffixes : Rules
  pub exacts : Rules
  pub overrides : Rules

-- What the code calls outside itself: net.ParseIP with String of what it read, and
-- publicsuffix.EffectiveTLDPlusOne, none where it returns an error.
pub record HostRules : Type 0 where
  pub canonical_ip : Text → Option Text
  pub effective_tld_plus_one : Text → Option Text

abbrev pub unbracket : Text → Text
unbracket [] = []
unbracket (c ∷ t) = if (c == b'[') && last_is b']' t then drop_last t else c ∷ t

abbrev pub is_dot : ℕ → Bool
is_dot c = c == b'.'

-- normalizeHost
unfoldable pub normalize_host : Text → Text
normalize_host host = lower (trim_bytes is_dot (unbracket (trim_space host)))

abbrev pub after_cut : Option (Text × Text) → Option Text
after_cut none = none
after_cut (some (a, b)) = some b

abbrev pub next_candidate : Text → Option Text
next_candidate candidate = after_cut (cut b'.' candidate)

abbrev pub or_next : {A : Type 0} → Option A → Option A → Option A
or_next none b = b
or_next (some a) b = some a

abbrev pub bind_option : {A B : Type 0} → Option A → (A → Option B) → Option B
bind_option none f = none
bind_option (some a) f = f a

-- The loop of lookupSuffix. Each round drops a byte at least, so as many rounds as bytes are enough.
unfoldable pub scan_suffixes : ℕ → Rules → Text → Option Entry
scan_suffixes zero rules candidate = none
scan_suffixes (suc fuel) rules candidate =
    let rest = bind_option (next_candidate candidate) (λ c. scan_suffixes fuel rules c) in
    if is_empty candidate then none else or_next (get_key candidate rules) rest

-- lookupSuffix
unfoldable pub lookup_suffix : Rules → Text → Option Entry
lookup_suffix [] name = none
lookup_suffix (r ∷ rules) name = scan_suffixes (length name) (r ∷ rules) name

abbrev pub or_default : Text → Text → Text
or_default value default = if is_empty value then default else value

abbrev pub override_entry : Override → Entry
override_entry o =
    let service = trim_space o.service in
    record {
      service = service;
      label = or_default (trim_space o.label) service;
      category = or_default (trim_space o.category) (text "custom");
    }

-- The map that WithOverrides makes: of two overrides with one suffix the last one counts.
unfoldable pub normalized_overrides : List Override → Rules → Rules
normalized_overrides [] normalized = normalized
normalized_overrides (o ∷ os) normalized =
    let suffix = normalize_host o.suffix in
    let kept =
      if is_empty suffix || is_empty (trim_space o.service)
      then normalized
      else put_key suffix (override_entry o) normalized in
    normalized_overrides os kept

abbrev pub replace_overrides : Catalog → Rules → Catalog
replace_overrides c [] = c
replace_overrides c (r ∷ rules) = record {
  version = c.version;
  source = c.source;
  suffixes = c.suffixes;
  exacts = c.exacts;
  overrides = r ∷ rules;
}

-- WithOverrides
unfoldable pub with_overrides : Catalog → List Override → Catalog
with_overrides c overrides = replace_overrides c (normalized_overrides overrides [])

abbrev pub classification : Entry → Source → Classification
classification e source = record {
  service = e.service;
  label = e.label;
  category = e.category;
  source = source;
}

abbrev pub self_labelled : Text → Text → Source → Classification
self_labelled name category source = record {
  service = name;
  label = name;
  category = category;
  source = source;
}

abbrev pub unknown_host : Classification
unknown_host = record {
  service = text "unknown";
  label = text "Unknown";
  category = text "unknown";
  source = from_nothing;
}

abbrev pub or_classify : Option Entry → Source → Classification → Classification
or_classify none source rest = rest
or_classify (some e) source rest = classification e source

abbrev pub by_public_suffix : Option Text → Text → Classification
by_public_suffix none name = self_labelled name (text "unclassified") from_nothing
by_public_suffix (some domain) name =
    if is_empty domain
    then self_labelled name (text "unclassified") from_nothing
    else self_labelled domain (text "unclassified") from_public_suffix

abbrev pub by_rules : HostRules → Catalog → Text → Classification
by_rules h c name = or_classify (lookup_suffix c.overrides name) from_override (
    or_classify (get_key name c.exacts) from_catalog (
      or_classify (lookup_suffix c.suffixes name) from_catalog
        (by_public_suffix (h.effective_tld_plus_one name) name)))

abbrev pub by_ip : Option Text → Classification → Classification
by_ip none rest = rest
by_ip (some canonical) rest = self_labelled canonical (text "direct-ip") from_ip

-- Classify
unfoldable pub classify : HostRules → Catalog → Text → Classification
classify h c host =
    let name = normalize_host host in
    if is_empty name then unknown_host else by_ip (h.canonical_ip name) (by_rules h c name)
