-- ===== src/Catalog/Labelled.antt =====
-- Every classification names a service: through parse, WithOverrides and Classify.
use box_fleet.Base.{
  ℕ, suc, ◌≡◌, refl, sym, Text, text, Bool, true, false, Option, none, some, List, [], ◌∷◌, All,
  is_empty, arith, get_key, Bool-cases, inl, inr, same, trim_right, has_prefix, cut, trim_space,
  put_key, split, if◌then◌else◌, ◌||◌,
}
use box_fleet.Catalog.{
  Entry, Rules, Catalog, Override, normalized_overrides, normalize_host, override_entry,
}
use box_fleet.Catalog.Parse.{
  Reading, nothing_read, parsed, parse, finish, read_lines, read_line, read_header, is_return,
  Parsed, refused, and_then, read_service, read_rule, read_record, cut_header,
}

abbrev pub IsServed : Rules → Type 0
IsServed = All (λ (r : Text × Entry). is_empty r.1.service ≡ false)

pub get_key-IsServed :
    (rules : Rules) (k : Text) (e : Entry)
    → IsServed rules
    → get_key k rules ≡ some e
    → is_empty e.service ≡ false
unfolding get_key
get_key-IsServed [] k e a h = cc
get_key-IsServed ((j, v) ∷ rules) k e a h = ground (arith, a.0, get_key-IsServed rules k e a.1)

record IsServedReading (r : Reading) : Type 0 where
  pub suffixes : IsServed r.suffixes
  pub exacts : IsServed r.exacts
  pub current : (e : Entry) → r.current ≡ some e → is_empty e.service ≡ false

abbrev Serves : Parsed Reading → Type 0
Serves (refused e) = Unit
Serves (parsed r) = IsServedReading r

if-Serves :
    (b : Bool) (x y : Parsed Reading)
    → (b ≡ true → Serves x)
    → (b ≡ false → Serves y)
    → Serves (if b then x else y)
if-Serves true x y h k = h refl
if-Serves false x y h k = k refl

read_service-Serves :
    (n : ℕ) (fields : List Text) (r : Reading)
    → IsServedReading r
    → Serves (read_service n fields r)
read_service-Serves n [] r v = tt
read_service-Serves n (key ∷ []) r v = tt
read_service-Serves n (key ∷ label ∷ []) r v = tt
read_service-Serves n (key ∷ label ∷ category ∷ []) r v =
    if-Serves (is_empty key) _ _ (λ _. tt)
      (λ filled. record { suffixes = v.suffixes; exacts = v.exacts; current = λ e h. ground arith })
read_service-Serves n (key ∷ label ∷ category ∷ d ∷ fields) r v = tt

put_if-IsServed :
    (b : Bool) (k : Text) (e : Entry) (rules : Rules)
    → is_empty e.service ≡ false
    → IsServed rules
    → IsServed (if b then put_key k e rules else rules)
      × IsServed (if b then rules else put_key k e rules)
put_if-IsServed true k e rules h a = ((h, a), a)
put_if-IsServed false k e rules h a = (a, (h, a))

read_rule-Serves :
    (n : ℕ) (b : Bool) (rest : Text) (o : Option Entry) (r : Reading)
    → r.current ≡ o
    → IsServedReading r
    → Serves (read_rule n b rest o r)
read_rule-Serves n b rest none r h v = tt
read_rule-Serves n b rest (some e) r h v =
    let served = v.current e h in
    if-Serves (is_empty rest) _ _ (λ _. tt)
      (λ filled. record {
        suffixes = (put_if-IsServed b rest e r.suffixes served v.suffixes).0;
        exacts = (put_if-IsServed b rest e r.exacts served v.exacts).1;
        current = λ g i. ground arith;
      })

read_record-Serves :
    (n : ℕ) (o : Option (Text × Text)) (r : Reading)
    → IsServedReading r
    → Serves (read_record n o r)
read_record-Serves n none r v = tt
read_record-Serves n (some (kind, rest)) r v =
    if-Serves (same kind (text "S")) _ _ (λ _. read_service-Serves n (split b'\t' rest) r v)
      (λ _.
        if-Serves (same kind (text "D") || same kind (text "F")) _ _
          (λ _. read_rule-Serves n (same kind (text "D")) rest r.current r refl v) (λ _. tt))

cut_header-IsServed :
    (line : Text) (o : Option (Text × Text)) (r : Reading)
    → IsServedReading r
    → IsServedReading (cut_header line o r)
cut_header-IsServed line none r v = record {
  suffixes = v.suffixes;
  exacts = v.exacts;
  current = v.current;
}
cut_header-IsServed line (some (key, value)) r v = record {
  suffixes = v.suffixes;
  exacts = v.exacts;
  current = v.current;
}

read_header-IsServed :
    (line : Text) (r : Reading) → IsServedReading r → IsServedReading (read_header line r)
read_header-IsServed [] r v = v
read_header-IsServed (c ∷ line) r v = cut_header-IsServed line (cut b'\t' line) r v

read_line-Serves :
    (n : ℕ) (line : Text) (r : Reading) → IsServedReading r → Serves (read_line n line r)
unfolding read_line
read_line-Serves n line r v =
    let t = trim_right is_return line in
    if-Serves (is_empty t || has_prefix (text "#") t) _ _ (λ _. v)
      (λ _.
        if-Serves (has_prefix (text "!") t) _ _ (λ _. read_header-IsServed t r v)
          (λ _. read_record-Serves n (cut b'\t' t) r v))

and_then-Serves :
    (p : Parsed Reading) (f : Reading → Parsed Reading)
    → Serves p
    → ((r : Reading) → IsServedReading r → Serves (f r))
    → Serves (and_then p f)
and_then-Serves (refused e) f h k = tt
and_then-Serves (parsed r) f h k = k r h

read_lines-Serves :
    (n : ℕ) (lines : List Text) (r : Reading) → IsServedReading r → Serves (read_lines n lines r)
unfolding read_lines
read_lines-Serves n [] r v = v
read_lines-Serves n (line ∷ lines) r v =
    and_then-Serves (read_line n line r) (λ s. read_lines (suc n) lines s)
      (read_line-Serves n line r v) (λ s w. read_lines-Serves (suc n) lines s w)

pub record IsServedCatalog (c : Catalog) : Type 0 where
  pub suffixes : IsServed c.suffixes
  pub exacts : IsServed c.exacts
  pub overrides : IsServed c.overrides

finish-IsServed :
    (r : Reading) (c : Catalog) → IsServedReading r → finish r ≡ parsed c → IsServedCatalog c
unfolding finish
finish-IsServed r c v h =
    let made : record {
      version = r.version;
      source = r.source;
      suffixes = r.suffixes;
      exacts = r.exacts;
      overrides = [];
    }
        ≡ c =
      ground arith in
    rw (sym made) (record { suffixes = v.suffixes; exacts = v.exacts; overrides = tt })

finish_read-IsServed :
    (p : Parsed Reading) (c : Catalog) → Serves p → and_then p finish ≡ parsed c → IsServedCatalog c
finish_read-IsServed (refused e) c v h = cc
finish_read-IsServed (parsed r) c v h = finish-IsServed r c v h

pub parse-IsServed : (t : Text) (c : Catalog) → parse t ≡ parsed c → IsServedCatalog c
unfolding parse
parse-IsServed t c h =
    finish_read-IsServed (read_lines 1 (split b'\n' t) nothing_read) c
      (read_lines-Serves 1 (split b'\n' t) nothing_read
        (record { suffixes = tt; exacts = tt; current = λ e i. cc }))
      h

pub normalized_overrides-IsServed :
    (os : List Override) (rules : Rules) → IsServed rules → IsServed (normalized_overrides os rules)
unfolding normalized_overrides
normalized_overrides-IsServed [] rules a = a
normalized_overrides-IsServed (o ∷ os) rules a =
    elim (Bool-cases (is_empty (normalize_host o.suffix) || is_empty (trim_space o.service))) [
      | inl skipped ↦ rw skipped (normalized_overrides-IsServed os rules a)
      | inr kept ↦ rw kept (
          normalized_overrides-IsServed os
            (put_key (normalize_host o.suffix) (override_entry o) rules) (ground arith, a))
    ]
