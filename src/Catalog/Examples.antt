-- ===== src/Catalog/Examples.antt =====
-- The service catalog's theorems at concrete hosts, and tests of its definitions.
use box_fleet.Base.{
  keep_rows, ◌≡◌, refl, Text, text, false, none, [], ◌∷◌, is_empty, same, get_key, lower,
  drop_bytes, trim_right, trim_space, has_prefix, cut, split, lacks, drop_last, arith, ap, length,
  length-append,
}
use box_fleet.Catalog.{
  Entry, Rules, Catalog, HostRules, Override, from_override, classify, with_overrides,
  lookup_suffix, scan_suffixes, normalize_host, classification, override_entry,
}
use box_fleet.Catalog.Parse.{parse, parsed, read_lines, read_line, finish}
use box_fleet.Catalog.Write.{Service, write, count_rules}
use box_fleet.Catalog.Suffix.{
  first_rule, label_suffixes, after_dots, lookup_suffix-first_rule, IsLongestRule, IsLabelSuffix,
  whole, after_dot,
}
use box_fleet.Catalog.Longest.{lookup_suffix-IsLongestRule}
use box_fleet.Catalog.Lines.{IsWritable}
use box_fleet.Catalog.Blocks.{all_suffixes, all_exacts}
use box_fleet.Catalog.RoundTrip.{parse-write}
use box_fleet.Catalog.Prune.{
  name_owner, scan_owner, parent, owners, exact_owners, pruned_services, prune_suffixes,
  prune_exacts,
}
use box_fleet.Catalog.Pruned.{name_owner-pruned}
use box_fleet.Catalog.Overrides.{classify-served, classify-apart, classify-override}

abbrev video : Entry
video = record { service = text "yt"; label = text "YT"; category = text "video" }

abbrev search_engine : Entry
search_engine = record { service = text "goo"; label = text "Goo"; category = text "web" }

abbrev two_rules : Rules
two_rules = (text "b.io", video) ∷ (text "io", search_engine) ∷ []

abbrev no_host_rules : HostRules
no_host_rules = record { canonical_ip = λ name. none; effective_tld_plus_one = λ name. none }

abbrev small_catalog : Catalog
small_catalog = record {
  version = text "1";
  source = text "s";
  suffixes = two_rules;
  exacts = [];
  overrides = [];
}

abbrev own_rule : Override
own_rule = record { suffix = text ".B.io"; service = text " me "; label = []; category = [] }

test_normalize_host : normalize_host (text " [A.b.] ") ≡ text "a.b"
unfolding normalize_host trim_space drop_last drop_bytes trim_right lower
test_normalize_host = refl

test_label_suffixes : label_suffixes (text "a.b.") ≡ text "a.b." ∷ text "b." ∷ []
unfolding label_suffixes after_dots
test_label_suffixes = refl

lookup_suffix-first_rule_example :
    lookup_suffix two_rules (text "a.b.io") ≡ first_rule two_rules (label_suffixes (text "a.b.io"))
lookup_suffix-first_rule_example = lookup_suffix-first_rule two_rules (text "a.b.io")

lookup_suffix-IsLongestRule_example : IsLongestRule two_rules (text "a.b.io") video
unfolding lookup_suffix scan_suffixes get_key same cut
lookup_suffix-IsLongestRule_example =
    lookup_suffix-IsLongestRule two_rules (text "a.b.io") video refl

abbrev small_text : Text
small_text = text "!version\t1\nS\tyt\tYT\tvideo\nD\tb.io\n"

abbrev read_catalog : Catalog
read_catalog = record {
  version = text "1";
  source = [];
  suffixes = (text "b.io", video) ∷ [];
  exacts = [];
  overrides = [];
}

test_parse : parse small_text ≡ parsed read_catalog
unfolding parse split read_lines read_line trim_right has_prefix cut same finish
test_parse = refl

classify-served_example :
    is_empty
      (classify no_host_rules (with_overrides read_catalog (own_rule ∷ [])) (text "x")).service
    ≡ false
unfolding parse split read_lines read_line trim_right has_prefix cut same finish
classify-served_example =
    classify-served no_host_rules small_text read_catalog (own_rule ∷ []) (text "x")
      (λ name ip h. cc) refl

other_host-apart : ¬ IsLabelSuffix (normalize_host own_rule.suffix) (normalize_host (text "x.y"))
unfolding normalize_host trim_space drop_last drop_bytes trim_right lower
other_host-apart (whole e) = omega (arith, ap (λ (u : Text). length u) e)
other_host-apart (after_dot f e) =
    omega (arith, ap (λ (u : Text). length u) e, length-append f (text ".b.io"))

classify-apart_example :
    classify no_host_rules (with_overrides small_catalog (own_rule ∷ [])) (text "x.y")
    ≡ classify no_host_rules small_catalog (text "x.y")
classify-apart_example =
    classify-apart no_host_rules small_catalog (own_rule ∷ []) (text "x.y") refl
      (other_host-apart, tt)

classify-override_example :
    classify no_host_rules (with_overrides small_catalog (own_rule ∷ [])) (text "b.IO")
    ≡ classification (override_entry own_rule) from_override
unfolding normalize_host trim_space drop_last drop_bytes trim_right lower
classify-override_example =
    classify-override no_host_rules small_catalog [] own_rule (text "b.IO") refl refl refl refl

abbrev video_service : Service
video_service = record {
  key = text "yt";
  label = text "YT";
  category = text "video";
  suffixes = text "b.io" ∷ [];
  exacts = [];
}

video_service-IsWritable : IsWritable video_service
unfolding lacks
video_service-IsWritable = record {
  key = record {
    clean = record { no_tab = refl; no_newline = refl; no_return = refl };
    filled = refl;
  };
  label = record { no_tab = refl; no_newline = refl; no_return = refl };
  category = record { no_tab = refl; no_newline = refl; no_return = refl };
  suffixes = (
    record { clean = record { no_tab = refl; no_newline = refl; no_return = refl }; filled = refl },
    tt,
  );
  exacts = tt;
}

parse-write_example :
    parse (write (text "1") (text "s") (video_service ∷ []))
    ≡ parsed (record {
      version = text "1";
      source = text "s";
      suffixes = all_suffixes (video_service ∷ []) [];
      exacts = all_exacts (video_service ∷ []) [];
      overrides = [];
    })
unfolding lacks count_rules
parse-write_example =
    parse-write (text "1") (text "s") (video_service ∷ [])
      (record {
        clean = record { no_tab = refl; no_newline = refl; no_return = refl };
        filled = refl;
      })
      (record { no_tab = refl; no_newline = refl; no_return = refl }) (video_service-IsWritable, tt)
      (omega arith)

abbrev nested_service : Service
nested_service = record {
  key = text "yt";
  label = text "YT";
  category = text "video";
  suffixes = text "io" ∷ text "b.io" ∷ [];
  exacts = text "x.io" ∷ [];
}

name_owner-pruned_example :
    name_owner (pruned_services (nested_service ∷ [])) (text "a.b.io")
    ≡ name_owner (nested_service ∷ []) (text "a.b.io")
unfolding owners exact_owners get_key same
name_owner-pruned_example =
    name_owner-pruned (nested_service ∷ []) (text "a.b.io") (refl, (refl, tt)) (refl, tt)

test_pruned : owners (pruned_services (nested_service ∷ [])) ≡ (text "io", text "yt") ∷ []
unfolding owners prune_suffixes keep_rows scan_owner parent cut get_key same
test_pruned = refl

test_pruned_exacts : exact_owners (pruned_services (nested_service ∷ [])) ≡ []
unfolding owners exact_owners prune_exacts keep_rows scan_owner parent cut get_key same
test_pruned_exacts = refl
