-- ===== src/Catalog/Lines.antt =====
-- The lines of the data set's file: each one that the writer makes is read back.
use box_fleet.Base.{
  ℕ, suc, ◌≡◌, refl, Text, true, false, some, List, [], ◌∷◌, ◌++◌, lacks, lacks-append,
  split-append, split-lacks, cut-append, trim_right-lacks, split, cut, All, is_empty, put_key, same,
  has_prefix,
}
use box_fleet.Catalog.{Entry}
use box_fleet.Catalog.Parse.{Reading, parsed, read_line, read_lines, set_header}
use box_fleet.Catalog.Write.{Service, service_line, suffix_line, exact_line}

pub record IsClean (t : Text) : Type 0 where
  pub no_tab : lacks b'\t' t ≡ true
  pub no_newline : lacks b'\n' t ≡ true
  pub no_return : lacks 13 t ≡ true

pub record IsDomain (t : Text) : Type 0 where
  pub clean : IsClean t
  pub filled : is_empty t ≡ false

pub record IsWritable (s : Service) : Type 0 where
  pub key : IsDomain s.key
  pub label : IsClean s.label
  pub category : IsClean s.category
  pub suffixes : All IsDomain s.suffixes
  pub exacts : All IsDomain s.exacts

abbrev pub entry_of : Service → Entry
entry_of s = record { service = s.key; label = s.label; category = s.category }

-- Lines that are read without an error, whatever their numbers.
pub record AreRead (ls : List Text) (r s : Reading) : Type 0 where
  pub reads : (n : ℕ) → read_lines n ls r ≡ parsed s

pub next_line :
    (l : Text) (ls : List Text) (r s u : Reading)
    → ((n : ℕ) → read_line n l r ≡ parsed s)
    → AreRead ls s u
    → AreRead (l ∷ ls) r u
unfolding read_lines
next_line l ls r s u h k = record { reads = λ n. rw (h n) (k.reads (suc n)) }

pub read_comment_line :
    (t : Text) (r : Reading) → lacks 13 t ≡ true → (n : ℕ) → read_line n (b'#' ∷ t) r ≡ parsed r
unfolding read_line lacks has_prefix
read_comment_line t r h n = rw (trim_right-lacks 13 (b'#' ∷ t) h) refl

pub read_header_line :
    (key value : Text) (r : Reading)
    → lacks b'\t' key ≡ true
    → lacks 13 key ≡ true
    → IsClean value
    → (n : ℕ) → read_line n (b'!' ∷ (key ++ (b'\t' ∷ value))) r ≡ parsed (set_header key value r)
unfolding read_line lacks has_prefix
read_header_line key value r h k v n =
    rw
      (
        trim_right-lacks 13 (b'!' ∷ (key ++ (b'\t' ∷ value)))
            (lacks-append 13 key (b'\t' ∷ value) k v.no_return),
        cut-append b'\t' key value h,
      )
      refl

abbrev pub set_current : Entry → Reading → Reading
set_current e r = record {
  version = r.version;
  source = r.source;
  suffixes = r.suffixes;
  exacts = r.exacts;
  current = some e;
}

split-fields :
    (s : Service)
    → IsWritable s
    → split b'\t' (s.key ++ (b'\t' ∷ (s.label ++ (b'\t' ∷ s.category))))
      ≡ s.key ∷ s.label ∷ s.category ∷ []
split-fields s w =
    rw
      (
        split-append b'\t' s.key (s.label ++ (b'\t' ∷ s.category)) w.key.clean.no_tab,
        split-append b'\t' s.label s.category w.label.no_tab,
        split-lacks b'\t' s.category w.category.no_tab,
      )
      refl

fields-lack :
    (s : Service) (b : ℕ)
    → lacks b s.key ≡ true
    → lacks b (b'\t' ∷ s.label) ≡ true
    → lacks b (b'\t' ∷ s.category) ≡ true
    → lacks b (s.key ++ (b'\t' ∷ (s.label ++ (b'\t' ∷ s.category)))) ≡ true
fields-lack s b k l c =
    lacks-append b s.key (b'\t' ∷ (s.label ++ (b'\t' ∷ s.category))) k
      (lacks-append b (b'\t' ∷ s.label) (b'\t' ∷ s.category) l c)

pub service_line-no_newline : (s : Service) → IsWritable s → lacks b'\n' (service_line s) ≡ true
unfolding lacks
service_line-no_newline s w =
    fields-lack s b'\n' w.key.clean.no_newline w.label.no_newline w.category.no_newline

service_line-no_return : (s : Service) → IsWritable s → lacks 13 (service_line s) ≡ true
unfolding lacks
service_line-no_return s w =
    fields-lack s 13 w.key.clean.no_return w.label.no_return w.category.no_return

pub read_service_line :
    (s : Service) (r : Reading)
    → IsWritable s
    → (n : ℕ) → read_line n (service_line s) r ≡ parsed (set_current (entry_of s) r)
unfolding read_line cut has_prefix same
read_service_line s r w n =
    rw
      (
        trim_right-lacks 13 (service_line s) (service_line-no_return s w),
        split-fields s w,
        w.key.filled,
      )
      refl

abbrev pub add_suffix : Entry → Text → Reading → Reading
add_suffix e domain r = record {
  version = r.version;
  source = r.source;
  suffixes = put_key domain e r.suffixes;
  exacts = r.exacts;
  current = some e;
}

abbrev pub add_exact : Entry → Text → Reading → Reading
add_exact e domain r = record {
  version = r.version;
  source = r.source;
  suffixes = r.suffixes;
  exacts = put_key domain e r.exacts;
  current = some e;
}

pub read_suffix_line :
    (e : Entry) (domain : Text) (r : Reading)
    → IsDomain domain
    → r.current ≡ some e
    → (n : ℕ) → read_line n (suffix_line domain) r ≡ parsed (add_suffix e domain r)
unfolding read_line lacks cut has_prefix same
read_suffix_line e domain r d h n =
    rw (trim_right-lacks 13 (suffix_line domain) d.clean.no_return, h, d.filled) refl

pub read_exact_line :
    (e : Entry) (domain : Text) (r : Reading)
    → IsDomain domain
    → r.current ≡ some e
    → (n : ℕ) → read_line n (exact_line domain) r ≡ parsed (add_exact e domain r)
unfolding read_line lacks cut has_prefix same
read_exact_line e domain r d h n =
    rw (trim_right-lacks 13 (exact_line domain) d.clean.no_return, h, d.filled) refl
