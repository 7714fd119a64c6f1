-- ===== src/Paths/Chain.antt =====
-- The chain of a path through its dialers to a path that dials directly.
use box_fleet.Base.{◌≤◌, ◌≡◌, refl, Text, Option, none, some, List, [], ◌∷◌, length, get_key, arith}
use box_fleet.Paths.{PathRow, Index}

abbrev pub Continues : Option Text → List PathRow → (Text → Type 0) → Type 0
Continues none [] rest = Unit
Continues none (p ∷ ps) rest = ⊥
Continues (some dialer) ps rest = rest dialer

-- The rows from a path's own to the one without a dialer.
abbrev pub IsChain : Index → Text → List PathRow → Type 0
IsChain index id [] = ⊥
IsChain index id (p ∷ ps) =
    (get_key id index ≡ some p) × Continues p.dialer_path_id ps (λ dialer. IsChain index dialer ps)

pub record HasChain (index : Index) (id : Text) : Type 0 where
  pub rows : List PathRow
  pub chain : IsChain index id rows

pub record HasShortChain (index : Index) (id : Text) : Type 0 where
  pub rows : List PathRow
  pub chain : IsChain index id rows
  pub short : length rows ≤ 3

rest_length :
    (o : Option Text) (ps qs : List PathRow) (P Q : Text → Type 0)
    → Continues o ps P
    → Continues o qs Q
    → ((dialer : Text) → P dialer → Q dialer → length ps ≡ length qs)
    → length ps ≡ length qs
rest_length none [] [] P Q c d h = refl
rest_length none [] (q ∷ qs) P Q c d h = elim d [ ]
rest_length none (p ∷ ps) qs P Q c d h = elim c [ ]
rest_length (some dialer) ps qs P Q c d h = h dialer c d

-- A path has one chain.
pub same_length :
    (index : Index) (id : Text) (ps qs : List PathRow)
    → IsChain index id ps
    → IsChain index id qs
    → length ps ≡ length qs
same_length index id [] qs c d = elim c [ ]
same_length index id (p ∷ ps) [] c d = elim d [ ]
same_length index id (p ∷ ps) (q ∷ qs) c d =
    let same_row : q ≡ p = ground (arith, c.0, d.0) in
    let rest = rw same_row at (d.1) in
    omega (
      arith,
      rest_length p.dialer_path_id ps qs (λ dialer. IsChain index dialer ps)
          (λ dialer. IsChain index dialer qs) c.1 rest
          (λ dialer a b. same_length index dialer ps qs a b),
    )

-- The chain of a path that dials directly, or through another path that has one.
pub one_hop :
    (index : Index) (id : Text) (p : PathRow)
    → get_key id index ≡ some p
    → p.dialer_path_id ≡ none
    → IsChain index id (p ∷ [])
one_hop index id p found direct = (found, rw direct tt)

pub one_more_hop :
    (index : Index) (id dialer : Text) (p : PathRow) (ps : List PathRow)
    → get_key id index ≡ some p
    → p.dialer_path_id ≡ some dialer
    → IsChain index dialer ps
    → IsChain index id (p ∷ ps)
one_more_hop index id dialer p ps found through c = (found, rw through c)
