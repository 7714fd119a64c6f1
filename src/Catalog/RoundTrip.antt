-- ===== src/Catalog/RoundTrip.antt =====
-- The data set that the generator writes is what the catalog reads: gen/main.go's write and parse.
use box_fleet.Base.{
  ℕ, ◌+◌, ◌≡◌, refl, Text, text, true, false, List, [], ◌∷◌, ◌++◌, lacks, lacks-append,
  lacks-decimal, All, is_empty, arith, put_key, same, ◌<◌, length, decimal, none,
}
use box_fleet.Catalog.{Entry, Rules}
use box_fleet.Catalog.Parse.{Reading, set_header, nothing_read, parsed, parse, finish}
use box_fleet.Catalog.Write.{
  Service, write, service_lines, header_lines, comment_lines, count_rules,
}
use box_fleet.Catalog.Lines.{
  IsClean, IsDomain, IsWritable, read_comment_line, read_header_line, entry_of,
}
use box_fleet.Catalog.Blocks.{
  put_all, all_suffixes, all_exacts, AreReadBack, next_written, after_services, read_services,
  after_services-fields,
}

-- What read_header_line leaves of the first lines, as the services are counted in texts.
after_header : Text → Text → Reading
after_header version origin = record {
  version = version;
  source = origin;
  suffixes = [];
  exacts = [];
  current = none;
}

IsClean-decimal : (n : ℕ) → IsClean (decimal n)
IsClean-decimal n = record {
  no_tab = lacks-decimal b'\t' n refl;
  no_newline = lacks-decimal b'\n' n refl;
  no_return = lacks-decimal 13 n refl;
}

header_line :
    (key value : Text) (ls : List Text) (r u : Reading)
    → lacks b'\t' key ≡ true
    → lacks b'\n' key ≡ true
    → lacks 13 key ≡ true
    → IsClean value
    → AreReadBack ls (set_header key value r) u
    → AreReadBack ((b'!' ∷ (key ++ (b'\t' ∷ value))) ∷ ls) r u
unfolding lacks
header_line key value ls r u h k l v back =
    next_written (b'!' ∷ (key ++ (b'\t' ∷ value))) ls r (set_header key value r) u
      (lacks-append b'\n' key (b'\t' ∷ value) k v.no_newline) (read_header_line key value r h l v)
      back

comment_line :
    (t : Text) (ls : List Text) (r u : Reading)
    → lacks b'\n' t ≡ true
    → lacks 13 t ≡ true
    → AreReadBack ls r u
    → AreReadBack ((b'#' ∷ t) ∷ ls) r u
unfolding lacks
comment_line t ls r u h k back = next_written (b'#' ∷ t) ls r r u h (read_comment_line t r k) back

read_written :
    (version origin : Text) (ss : List Service) (u : Reading)
    → IsClean version
    → IsClean origin
    → AreReadBack (service_lines ss) (after_header version origin) u
    → AreReadBack
        (comment_lines ++ (header_lines version origin ss ++ service_lines ss))
        nothing_read
        u
unfolding lacks same after_header
read_written version origin ss u v o back = comment_line _ _ _ _ refl refl (
    comment_line _ _ _ _ refl refl (
      comment_line _ _ _ _ refl refl (
        comment_line _ _ _ _ refl refl (
          header_line (text "version") _ _ _ _ refl refl refl v (
            header_line (text "source") _ _ _ _ refl refl refl o (
              header_line (text "services") _ _ _ _ refl refl refl (IsClean-decimal (length ss)) (
                header_line (text "rules") _ _ _ _ refl refl refl (IsClean-decimal (count_rules ss))
                  back)))))))

length-put_all :
    (e : Entry) (ds : List Text) (rules : Rules)
    → length (put_all e ds rules) ≡ length ds + length rules
unfolding put_all
length-put_all e [] rules = omega arith
length-put_all e (d ∷ ds) rules = omega (arith, length-put_all e ds (put_key d e rules))

length-all_rules :
    (ss : List Service) (x y : Rules)
    → length (all_suffixes ss x) + length (all_exacts ss y) ≡ count_rules ss + (length x + length y)
unfolding all_suffixes all_exacts count_rules
length-all_rules [] x y = omega arith
length-all_rules (s ∷ ss) x y = omega (
  arith,
  length-all_rules ss (put_all (entry_of s) s.suffixes x) (put_all (entry_of s) s.exacts y),
  length-put_all (entry_of s) s.suffixes x,
  length-put_all (entry_of s) s.exacts y,
)

finish-after_services :
    (version origin : Text) (ss : List Service)
    → is_empty version ≡ false
    → 0 < count_rules ss
    → finish (after_services ss (after_header version origin))
      ≡ parsed (record {
        version = version;
        source = origin;
        suffixes = all_suffixes ss [];
        exacts = all_exacts ss [];
        overrides = [];
      })
unfolding finish after_header
finish-after_services version origin ss filled some_rule =
    let fields = after_services-fields ss (after_header version origin) in
    let total = length-all_rules ss [] [] in
    rw (fields.0, fields.1, fields.2, fields.3, filled) (ground (arith, total))

-- What the generator writes is read without an error, as its version, its origin and its services'
-- rules in their order, if the version and the keys and domains are not empty, no text has a tab or
-- a line break, and there is a rule.
pub parse-write :
    (version origin : Text) (ss : List Service)
    → IsDomain version
    → IsClean origin
    → All IsWritable ss
    → 0 < count_rules ss
    → parse (write version origin ss)
      ≡ parsed (record {
        version = version;
        source = origin;
        suffixes = all_suffixes ss [];
        exacts = all_exacts ss [];
        overrides = [];
      })
unfolding parse write
parse-write version origin ss v o a some_rule =
    let header = after_header version origin in
    let back =
      read_written version origin ss (after_services ss header) v.clean o
        (read_services ss header a) in
    rw (back.reads 1) (finish-after_services version origin ss v.filled some_rule)
