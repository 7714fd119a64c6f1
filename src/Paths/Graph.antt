-- ===== src/Paths/Graph.antt =====
-- What validatePathGraph accepts, in terms of the chain of the candidate.
use box_fleet.Base.{
  ℕ, zero, suc, ◌+◌, ◌<◌, ◌≤◌, ◌≡◌, ◌↔◌, refl, Text, Bool, true, false, Option, none, some, List,
  [], ◌∷◌, length, get_key, arith, same, same_iff, All, Bool-cases, Option-cases, inl, inr,
}
use box_fleet.Paths.{
  PathRow, Index, Marks, Visit, GraphFault, faulty, passed, visit, and_visit, enter, leave, has_id,
  candidate_index, validate_path_graph, no_marks, check_dialer, or_visit,
}
use box_fleet.Paths.Chain.{IsChain, HasShortChain, same_length, Continues, one_hop, one_more_hop}

abbrev pub accepts : Visit → Bool
accepts (faulty e) = false
accepts (passed m) = true

-- A chain within the depth that is left.
record HasChainFrom (index : Index) (id : Text) (depth : ℕ) : Type 0 where
  pub rows : List PathRow
  pub chain : IsChain index id rows
  pub short : depth + length rows ≤ 4

accepts-and_visit :
    (v : Visit) (f : Marks → Visit) → accepts (and_visit v f) ≡ true → accepts v ≡ true
accepts-and_visit (faulty e) f h = h
accepts-and_visit (passed m) f h = refl

visit-HasChainFrom :
    (rounds : ℕ) (index : Index) (id : Text) (depth : ℕ) (m : Marks)
    → m.visited ≡ []
    → accepts (visit rounds index id depth m) ≡ true
    → HasChainFrom index id depth
unfolding visit has_id
visit-HasChainFrom zero index id depth m fresh h = cc
visit-HasChainFrom (suc rounds) index id depth m fresh h =
    elim (Bool-cases (has_id id m.visiting)) [
      | inl again ↦ ground arith
      | inr first ↦ elim (Option-cases (get_key id index)) [
        | inl gone ↦ ground arith
        | inr (p, found) ↦ elim (Option-cases p.dialer_path_id) [
          | inl direct ↦ record {
            rows = p ∷ [];
            chain = one_hop index id p found direct;
            short = ground arith;
          }
          | inr (dialer, through) ↦
              let v = visit rounds index dialer (depth + 1) (enter id m) in
              let inner : accepts (and_visit v (λ n. leave id n)) ≡ true = ground arith in
              let rest =
                visit-HasChainFrom rounds index dialer (depth + 1) (enter id m) fresh
                  (accepts-and_visit v (λ n. leave id n) inner) in
              record {
                rows = p ∷ rest.rows;
                chain = one_more_hop index id dialer p rest.rows found through rest.chain;
                short = omega (arith, rest.short);
              }
        ]
      ]
    ]

-- The paths being visited lie above the chain: their chains are longer.
abbrev AreAbove : Index → List Text → List PathRow → Type 0
AreAbove index ids ps =
    All (λ id. (qs : List PathRow) → IsChain index id qs → length ps < length qs) ids

visiting_above :
    (index : Index) (ids : List Text) (id : Text) (ps : List PathRow)
    → AreAbove index ids ps
    → IsChain index id ps
    → has_id id ids ≡ false
unfolding has_id
visiting_above index [] id ps a c = refl
visiting_above index (x ∷ ids) id ps a c = elim (Bool-cases (same x id)) [
  | inl hit ↦
      let same_id : id ≡ x = ground (arith, same_iff x id) in
      ground (arith, a.0 ps (rw same_id at c))
  | inr miss ↦ rw miss (visiting_above index ids id ps a.1 c)
]

All-shorter :
    (index : Index) (ids : List Text) (p : PathRow) (ps : List PathRow)
    → AreAbove index ids (p ∷ ps)
    → AreAbove index ids ps
All-shorter index [] p ps a = tt
All-shorter index (x ∷ ids) p ps a =
    (λ qs c. omega (arith, a.0 qs c), All-shorter index ids p ps a.1)

-- Marks that a visit leaves: passed, with whatever has been visited.
passes_and_leaves :
    (v : Visit) (id : Text) → accepts v ≡ true → accepts (and_visit v (λ n. leave id n)) ≡ true
passes_and_leaves (faulty e) id h = h
passes_and_leaves (passed m) id h = refl

visit-accepts :
    (rounds : ℕ) (index : Index) (id : Text) (depth : ℕ) (m : Marks) (ps : List PathRow)
    → m.visited ≡ []
    → IsChain index id ps
    → AreAbove index m.visiting ps
    → depth + length ps ≤ 4
    → length ps ≤ rounds
    → accepts (visit rounds index id depth m) ≡ true
unfolding visit has_id
visit-accepts rounds index id depth m [] fresh c a d r = elim c [ ]
visit-accepts zero index id depth m (p ∷ ps) fresh c a d r = ground arith
visit-accepts (suc rounds) index id depth m (p ∷ ps) fresh c a d r =
    let first = visiting_above index m.visiting id (p ∷ ps) a c in
    elim (Option-cases p.dialer_path_id) [
      | inl direct ↦ ground (arith, c.0)
      | inr (dialer, through) ↦
          let rest : IsChain index dialer ps = rw through at (c.1) in
          let above : AreAbove index (id ∷ m.visiting) ps = (
            λ qs k. omega (arith, same_length index id (p ∷ ps) qs c k),
            All-shorter index m.visiting p ps a,
          ) in
          let v = visit rounds index dialer (depth + 1) (enter id m) in
          let inner =
            visit-accepts rounds index dialer (depth + 1) (enter id m) ps fresh rest above
              (omega arith) (omega arith) in
          ground (arith, c.0, passes_and_leaves v id inner)
    ]

dialer_there :
    (index : Index) (p : PathRow) (ps : List PathRow)
    → Continues p.dialer_path_id ps (λ dialer. IsChain index dialer ps)
    → check_dialer index p.dialer_path_id ≡ none
dialer_there index p ps c = elim (Option-cases p.dialer_path_id) [
  | inl direct ↦ rw direct refl
  | inr (dialer, through) ↦ rw through (chained_there index dialer ps (rw through at c))
]
  where
    chained_there :
        (index : Index) (dialer : Text) (ps : List PathRow)
        → IsChain index dialer ps
        → check_dialer index (some dialer) ≡ none
    chained_there index dialer [] c = elim c [ ]
    chained_there index dialer (q ∷ ps) c = rw (c.0) refl

or_visit-accepts :
    (o : Option GraphFault) (v : Visit) → accepts (or_visit o v) ≡ true → accepts v ≡ true
or_visit-accepts none v h = h
or_visit-accepts (some e) v h = cc

accepted-HasShortChain :
    (paths : List PathRow) (candidate : PathRow)
    → accepts (validate_path_graph paths candidate) ≡ true
    → HasShortChain (candidate_index paths candidate) candidate.id
unfolding validate_path_graph
accepted-HasShortChain paths candidate h =
    let index = candidate_index paths candidate in
    let v =
      visit-HasChainFrom 4 index candidate.id 1 no_marks refl
        (or_visit-accepts (check_dialer index candidate.dialer_path_id) _ h) in
    record { rows = v.rows; chain = v.chain; short = omega (arith, v.short) }

own_row :
    (paths : List PathRow) (candidate : PathRow)
    → get_key candidate.id (candidate_index paths candidate) ≡ some candidate
unfolding get_key
own_row paths candidate = ground (arith, same_iff candidate.id candidate.id)

HasShortChain-accepted :
    (paths : List PathRow) (candidate : PathRow) (ps : List PathRow)
    → IsChain (candidate_index paths candidate) candidate.id ps
    → length ps ≤ 3
    → accepts (validate_path_graph paths candidate) ≡ true
unfolding validate_path_graph
HasShortChain-accepted paths candidate [] c short = elim c [ ]
HasShortChain-accepted paths candidate (p ∷ ps) c short =
    let index = candidate_index paths candidate in
    let own : p ≡ candidate = ground (arith, c.0, own_row paths candidate) in
    let there = rw own at (dialer_there index p ps c.1) in
    rw there
      (visit-accepts 4 index candidate.id 1 no_marks (p ∷ ps) refl c tt (omega arith) (omega arith))

-- validatePathGraph accepts a path exactly when its dialers, read with the candidate in the place of
-- its row, lead to a path that dials directly, in a chain of at most three paths; so there is no
-- cycle on the way and no dialer is missing.
pub validate_path_graph-HasShortChain :
    (paths : List PathRow) (candidate : PathRow)
    → (accepts (validate_path_graph paths candidate) ≡ true)
      ↔ HasShortChain (candidate_index paths candidate) candidate.id
validate_path_graph-HasShortChain paths candidate = (
  accepted-HasShortChain paths candidate,
  λ v. HasShortChain-accepted paths candidate v.rows v.chain v.short,
)
