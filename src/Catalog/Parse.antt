-- ===== src/Catalog/Parse.antt =====
-- Reading the embedded data set: parse of internal/servicecatalog/catalog.go.
use box_fleet.Base.{
  ℕ, ◌+◌, suc, Text, text, same, Bool, ◌||◌, Option, none, some, List, [], ◌∷◌, ◌==◌, length,
  if◌then◌else◌, trim_right, has_prefix, cut, split, put_key, is_empty,
}
use box_fleet.Catalog.{Entry, Rules, Catalog}

-- The errors, with the number of the line where they name one.
pub data ParseFault : Type 0 where
  missing_tab malformed_service rule_before_service empty_domain unknown_kind : ℕ → ParseFault
  no_version no_rules : ParseFault

pub data Parsed (A : Type 0) : Type 0 where
  refused : ParseFault → Parsed A
  parsed : A → Parsed A

abbrev pub and_then : {A B : Type 0} → Parsed A → (A → Parsed B) → Parsed B
and_then (refused e) f = refused e
and_then (parsed a) f = f a

-- The variables of parse; `current` is none until `haveService` is set.
pub record Reading : Type 0 where
  pub version : Text
  pub source : Text
  pub suffixes : Rules
  pub exacts : Rules
  pub current : Option Entry

abbrev pub is_return : ℕ → Bool
is_return c = c == 13

abbrev pub set_header : Text → Text → Reading → Reading
set_header key value r = record {
  version = if same key (text "version") then value else r.version;
  source = if same key (text "source") then value else r.source;
  suffixes = r.suffixes;
  exacts = r.exacts;
  current = r.current;
}

abbrev pub cut_header : Text → Option (Text × Text) → Reading → Reading
cut_header line none r = set_header line [] r
cut_header line (some (key, value)) r = set_header key value r

abbrev pub read_header : Text → Reading → Reading
read_header [] r = r
read_header (c ∷ line) r = cut_header line (cut b'\t' line) r

abbrev pub read_service : ℕ → List Text → Reading → Parsed Reading
read_service n (key ∷ label ∷ category ∷ []) r =
    if is_empty key
    then refused (malformed_service n)
    else parsed (record {
      version = r.version;
      source = r.source;
      suffixes = r.suffixes;
      exacts = r.exacts;
      current = some (record { service = key; label = label; category = category });
    })
read_service n _ r = refused (malformed_service n)

abbrev pub read_rule : ℕ → Bool → Text → Option Entry → Reading → Parsed Reading
read_rule n whole_domain rest none r = refused (rule_before_service n)
read_rule n whole_domain rest (some e) r =
    if is_empty rest
    then refused (empty_domain n)
    else parsed (record {
      version = r.version;
      source = r.source;
      suffixes = if whole_domain then put_key rest e r.suffixes else r.suffixes;
      exacts = if whole_domain then r.exacts else put_key rest e r.exacts;
      current = some e;
    })

abbrev pub read_record : ℕ → Option (Text × Text) → Reading → Parsed Reading
read_record n none r = refused (missing_tab n)
read_record n (some (kind, rest)) r =
    if same kind (text "S")
    then read_service n (split b'\t' rest) r
    else if same kind (text "D") || same kind (text "F")
    then read_rule n (same kind (text "D")) rest r.current r
    else refused (unknown_kind n)

abbrev pub read_trimmed : ℕ → Text → Reading → Parsed Reading
read_trimmed n line r =
    if is_empty line || has_prefix (text "#") line
    then parsed r
    else if has_prefix (text "!") line
    then parsed (read_header line r)
    else read_record n (cut b'\t' line) r

-- One round of the loop.
unfoldable pub read_line : ℕ → Text → Reading → Parsed Reading
read_line n line r = read_trimmed n (trim_right is_return line) r

unfoldable pub read_lines : ℕ → List Text → Reading → Parsed Reading
read_lines n [] r = parsed r
read_lines n (line ∷ lines) r = and_then (read_line n line r) (λ s. read_lines (suc n) lines s)

abbrev pub nothing_read : Reading
nothing_read = record { version = []; source = []; suffixes = []; exacts = []; current = none }

unfoldable pub finish : Reading → Parsed Catalog
finish r =
    if is_empty r.version
    then refused no_version
    else if length r.suffixes + length r.exacts == 0
    then refused no_rules
    else parsed (record {
      version = r.version;
      source = r.source;
      suffixes = r.suffixes;
      exacts = r.exacts;
      overrides = [];
    })

-- parse
unfoldable pub parse : Text → Parsed Catalog
parse t = and_then (read_lines 1 (split b'\n' t) nothing_read) finish
