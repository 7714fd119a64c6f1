-- ===== src/Paths/Rounds.antt =====
-- The depth ends the recursion of validatePathGraph.
use box_fleet.Base.{
  ℕ, zero, suc, ◌+◌, ◌≤◌, ◌≡◌, ◌≢◌, refl, Text, Bool, true, false, Option, none, some, List,
  get_key, arith, Option-cases, inl, inr,
}
use box_fleet.Paths.{
  PathRow, Index, Marks, Visit, visit, validate_path_graph, no_marks, enter, and_visit, leave,
  candidate_index, check_dialer, or_visit, faulty, passed, out_of_rounds,
}

-- Any number of rounds that the depth cannot use up gives the same answer.
visit-rounds :
    (r s : ℕ) (index : Index) (id : Text) (depth : ℕ) (m : Marks)
    → 5 ≤ r + depth
    → 5 ≤ s + depth
    → 1 ≤ r
    → 1 ≤ s
    → visit r index id depth m ≡ visit s index id depth m
unfolding visit
visit-rounds zero s index id depth m h k a b = ground arith
visit-rounds (suc r) zero index id depth m h k a b = ground arith
visit-rounds (suc r) (suc s) index id depth m h k a b = elim (Option-cases (get_key id index)) [
  | inl gone ↦ rw gone refl
  | inr (p, found) ↦ elim (Option-cases p.dialer_path_id) [
    | inl direct ↦ rw (found, direct) refl
    | inr (dialer, through) ↦ ground (arith, visit-rounds r s index dialer (depth + 1) (enter id m))
  ]
]

abbrev in_rounds : Visit → Bool
in_rounds (faulty out_of_rounds) = false
in_rounds _ = true

and_leave-in_rounds :
    (v : Visit) (id : Text) → in_rounds v ≡ true → in_rounds (and_visit v (λ n. leave id n)) ≡ true
and_leave-in_rounds (faulty e) id h = h
and_leave-in_rounds (passed m) id h = refl

visit-in_rounds :
    (r : ℕ) (index : Index) (id : Text) (depth : ℕ) (m : Marks)
    → 5 ≤ r + depth
    → 1 ≤ r
    → in_rounds (visit r index id depth m) ≡ true
unfolding visit
visit-in_rounds zero index id depth m h a = ground arith
visit-in_rounds (suc r) index id depth m h a = elim (Option-cases (get_key id index)) [
  | inl gone ↦ ground arith
  | inr (p, found) ↦ elim (Option-cases p.dialer_path_id) [
    | inl direct ↦ ground arith
    | inr (dialer, through) ↦ ground (
      arith,
      visit-in_rounds r index dialer (depth + 1) (enter id m),
      and_leave-in_rounds (visit r index dialer (depth + 1) (enter id m)) id,
    )
  ]
]

checked-in_rounds :
    (index : Index) (o : Option Text) (v : Visit)
    → in_rounds v ≡ true
    → in_rounds (or_visit (check_dialer index o) v) ≡ true
checked-in_rounds index none v h = h
checked-in_rounds index (some dialer) v h = elim (Option-cases (get_key dialer index)) [
  | inl gone ↦ rw (check_dialer, gone) refl
  | inr (p, found) ↦ rw (check_dialer, found) h
]

-- The recursion of validatePathGraph ends by itself: the four rounds that it is given are never used
-- up, and with more rounds the answer is the same.
pub validate_path_graph-ends :
    (paths : List PathRow) (candidate : PathRow)
    → (validate_path_graph paths candidate ≢ faulty out_of_rounds)
      × ((more : ℕ)
          → or_visit
              (check_dialer (candidate_index paths candidate) candidate.dialer_path_id)
              (visit (4 + more) (candidate_index paths candidate) candidate.id 1 no_marks)
            ≡ validate_path_graph paths candidate)
unfolding validate_path_graph
validate_path_graph-ends paths candidate =
    let index = candidate_index paths candidate in
    let ends =
      checked-in_rounds index candidate.dialer_path_id (visit 4 index candidate.id 1 no_marks)
        (visit-in_rounds 4 index candidate.id 1 no_marks (omega arith) (omega arith)) in
    (
      λ e. ground (arith, ends),
      λ more.
          rw
            (visit-rounds (4 + more) 4 index candidate.id 1 no_marks (omega arith) (omega arith)
              (omega arith) (omega arith))
            refl,
    )
