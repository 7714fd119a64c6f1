-- ===== src/Catalog/Write.antt =====
-- Writing the data set: write of internal/servicecatalog/gen/main.go, the file's text.
use box_fleet.Base.{decimal, ℕ, ◌+◌, Text, text, List, [], ◌∷◌, ◌++◌, length, map}

pub record Service : Type 0 where
  pub key : Text
  pub label : Text
  pub category : Text
  pub suffixes : List Text
  pub exacts : List Text

-- Lines, each with its newline.
unfoldable pub write_lines : List Text → Text
write_lines [] = []
write_lines (l ∷ ls) = l ++ (b'\n' ∷ write_lines ls)

abbrev pub suffix_line : Text → Text
suffix_line domain = text "D\t" ++ domain

abbrev pub exact_line : Text → Text
exact_line domain = text "F\t" ++ domain

abbrev pub service_line : Service → Text
service_line s = text "S\t" ++ (s.key ++ (b'\t' ∷ (s.label ++ (b'\t' ∷ s.category))))

unfoldable pub service_lines : List Service → List Text
service_lines [] = []
service_lines (s ∷ ss) =
    service_line s ∷ (map suffix_line s.suffixes ++ (map exact_line s.exacts ++ service_lines ss))

unfoldable pub count_rules : List Service → ℕ
count_rules [] = 0
count_rules (s ∷ ss) = length s.suffixes + length s.exacts + count_rules ss

-- A dash of three bytes, which the first comment has.
abbrev pub em_dash : Text
em_dash = 226 ∷ 128 ∷ 148 ∷ []

abbrev pub comment_lines : List Text
comment_lines =
    (text "# BoxFleet service catalog. Generated by internal/servicecatalog/gen "
      ++ (em_dash ++ text " do not edit by hand."))
    ∷ text "# Upstream data is MIT licensed; see gen/README.md for the regeneration procedure."
    ∷ text "# S<TAB>key<TAB>label<TAB>category starts a service block; D suffix rules and F exact"
    ∷ text "# rules that follow belong to it."
    ∷ []

abbrev pub header_lines : Text → Text → List Service → List Text
header_lines version origin services =
    (text "!version\t" ++ version)
    ∷ (text "!source\t" ++ origin)
    ∷ (text "!services\t" ++ decimal (length services))
    ∷ (text "!rules\t" ++ decimal (count_rules services))
    ∷ []

-- write
unfoldable pub write : Text → Text → List Service → Text
write version origin services =
    write_lines (comment_lines ++ (header_lines version origin services ++ service_lines services))
