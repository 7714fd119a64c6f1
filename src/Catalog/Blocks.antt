-- ===== src/Catalog/Blocks.antt =====
-- Reading back the services of the data set's file, block by block.
use box_fleet.Base.{
  ℕ, ◌≡◌, refl, Text, true, List, [], ◌∷◌, ◌++◌, map, lacks, split-append, split, trim_right, All,
  put_key, some,
}
use box_fleet.Catalog.{Entry, Rules}
use box_fleet.Catalog.Parse.{Reading, read_line, parsed, read_lines}
use box_fleet.Catalog.Write.{
  Service, write_lines, service_line, service_lines, suffix_line, exact_line,
}
use box_fleet.Catalog.Lines.{
  IsDomain, IsWritable, AreRead, next_line, read_service_line, read_suffix_line, read_exact_line,
  set_current, entry_of, add_suffix, add_exact, service_line-no_newline,
}

-- The pairs that a list of domains adds to a map, each domain with one entry.
unfoldable pub put_all : Entry → List Text → Rules → Rules
put_all e [] rules = rules
put_all e (d ∷ ds) rules = put_all e ds (put_key d e rules)

unfoldable pub all_suffixes : List Service → Rules → Rules
all_suffixes [] rules = rules
all_suffixes (s ∷ ss) rules = all_suffixes ss (put_all (entry_of s) s.suffixes rules)

unfoldable pub all_exacts : List Service → Rules → Rules
all_exacts [] rules = rules
all_exacts (s ∷ ss) rules = all_exacts ss (put_all (entry_of s) s.exacts rules)

abbrev add_suffixes : Entry → List Text → Reading → Reading
add_suffixes e ds r = record {
  version = r.version;
  source = r.source;
  suffixes = put_all e ds r.suffixes;
  exacts = r.exacts;
  current = r.current;
}

abbrev add_exacts : Entry → List Text → Reading → Reading
add_exacts e ds r = record {
  version = r.version;
  source = r.source;
  suffixes = r.suffixes;
  exacts = put_all e ds r.exacts;
  current = r.current;
}

-- The lines of a file with these lines are read without an error.
abbrev pub AreReadBack : List Text → Reading → Reading → Type 0
AreReadBack ls r u = AreRead (split b'\n' (write_lines ls)) r u

pub next_written :
    (l : Text) (ls : List Text) (r s u : Reading)
    → lacks b'\n' l ≡ true
    → ((n : ℕ) → read_line n l r ≡ parsed s)
    → AreReadBack ls s u
    → AreReadBack (l ∷ ls) r u
unfolding write_lines
next_written l ls r s u clean h k =
    rw (split-append b'\n' l (write_lines ls) clean)
      (next_line l (split b'\n' (write_lines ls)) r s u h k)

pub nothing_left : (r : Reading) → AreReadBack [] r r
unfolding write_lines split read_lines read_line trim_right
nothing_left r = record { reads = λ n. refl }

read_suffixes :
    (e : Entry) (ds : List Text) (ls : List Text) (r u : Reading)
    → All IsDomain ds
    → r.current ≡ some e
    → AreReadBack ls (add_suffixes e ds r) u
    → AreReadBack (map suffix_line ds ++ ls) r u
unfolding put_all lacks
read_suffixes e [] ls r u a h k = k
read_suffixes e (d ∷ ds) ls r u a h k =
    next_written (suffix_line d) (map suffix_line ds ++ ls) r (add_suffix e d r) u
      a.0.clean.no_newline (read_suffix_line e d r a.0 h)
      (read_suffixes e ds ls (add_suffix e d r) u a.1 refl (rw h at k))

read_exacts :
    (e : Entry) (ds : List Text) (ls : List Text) (r u : Reading)
    → All IsDomain ds
    → r.current ≡ some e
    → AreReadBack ls (add_exacts e ds r) u
    → AreReadBack (map exact_line ds ++ ls) r u
unfolding put_all lacks
read_exacts e [] ls r u a h k = k
read_exacts e (d ∷ ds) ls r u a h k =
    next_written (exact_line d) (map exact_line ds ++ ls) r (add_exact e d r) u a.0.clean.no_newline
      (read_exact_line e d r a.0 h) (read_exacts e ds ls (add_exact e d r) u a.1 refl (rw h at k))

-- What has been read after the blocks of the services.
unfoldable pub after_services : List Service → Reading → Reading
after_services [] r = r
after_services (s ∷ ss) r = after_services ss (
    add_exacts (entry_of s) s.exacts
      (add_suffixes (entry_of s) s.suffixes (set_current (entry_of s) r)))

pub read_services :
    (ss : List Service) (r : Reading)
    → All IsWritable ss
    → AreReadBack (service_lines ss) r (after_services ss r)
unfolding after_services service_lines
read_services [] r a = nothing_left r
read_services (s ∷ ss) r a =
    let e = entry_of s in
    let set = set_current e r in
    let put = add_suffixes e s.suffixes set in
    let left = map exact_line s.exacts ++ service_lines ss in
    let u = after_services (s ∷ ss) r in
    next_written (service_line s) (map suffix_line s.suffixes ++ left) r set u
      (service_line-no_newline s a.0) (read_service_line s r a.0)
      (read_suffixes e s.suffixes left set u a.0.suffixes refl (
        read_exacts e s.exacts (service_lines ss) put u a.0.exacts refl
          (read_services ss (add_exacts e s.exacts put) a.1)))

pub after_services-fields :
    (ss : List Service) (r : Reading)
    → ((after_services ss r).version ≡ r.version)
      × ((after_services ss r).source ≡ r.source)
      × ((after_services ss r).suffixes ≡ all_suffixes ss r.suffixes)
      × ((after_services ss r).exacts ≡ all_exacts ss r.exacts)
unfolding after_services all_suffixes all_exacts
after_services-fields [] r = (refl, refl, refl, refl)
after_services-fields (s ∷ ss) r = after_services-fields ss (
    add_exacts (entry_of s) s.exacts
      (add_suffixes (entry_of s) s.suffixes (set_current (entry_of s) r)))
