-- ===== src/Paths/Acyclic.antt =====
-- No sequence of writes makes a cycle of dialers or a path whose dialer is missing.
use box_fleet.Base.{
  ◌≡◌, refl, ◌⊎◌, sym, ◌∙◌, Text, Bool, true, false, not, none, some, List, [], ◌∷◌, ◌++◌, get_key,
  put_key, arith, same, same_iff, Bool-cases, Option-cases, inl, inr, any_row, update_rows,
  keep_rows,
}
use box_fleet.Paths.{PathRow, Index, by_id, candidate_index, validate_path_graph, has_path_id}
use box_fleet.Paths.Chain.{IsChain, HasChain, one_hop, one_more_hop}
use box_fleet.Paths.Graph.{accepts, validate_path_graph-HasShortChain}

-- Every path of the table leads through its dialers to one that dials directly.
pub record HasChains (paths : List PathRow) : Type 0 where
  pub chains :
      (id : Text) (p : PathRow)
      → get_key id (by_id paths []) ≡ some p
      → HasChain (by_id paths []) id

-- Two maps agree, but on one key.
abbrev pub AgreesOff : Text → Index → Index → Type 0
AgreesOff k x y = (id : Text) → same k id ≡ false → get_key id y ≡ get_key id x

pub rechained :
    (x y : Index) (k id : Text) (ps : List PathRow)
    → AgreesOff k x y
    → HasChain y k
    → IsChain x id ps
    → HasChain y id
rechained x y k id [] a v c = elim c [ ]
rechained x y k id (p ∷ ps) a v c = elim (Bool-cases (same k id)) [
  | inl hit ↦ let same_id : k ≡ id = ground (arith, same_iff k id) in rw (sym same_id) v
  | inr miss ↦
      let found : get_key id y ≡ some p = a id miss ∙ c.0 in
      elim (Option-cases p.dialer_path_id) [
        | inl direct ↦ record { rows = p ∷ []; chain = one_hop y id p found direct }
        | inr (dialer, through) ↦
            let rest = rechained x y k dialer ps a v (rw through at (c.1)) in
            record {
              rows = p ∷ rest.rows;
              chain = one_more_hop y id dialer p rest.rows found through rest.chain;
            }
      ]
]

same_chain :
    (x y : Index) (id : Text) (ps : List PathRow)
    → ((i : Text) → get_key i y ≡ get_key i x)
    → IsChain x id ps
    → HasChain y id
same_chain x y id [] e c = elim c [ ]
same_chain x y id (p ∷ ps) e c =
    let found : get_key id y ≡ some p = e id ∙ c.0 in
    elim (Option-cases p.dialer_path_id) [
      | inl direct ↦ record { rows = p ∷ []; chain = one_hop y id p found direct }
      | inr (dialer, through) ↦
          let rest = same_chain x y dialer ps e (rw through at (c.1)) in
          record {
            rows = p ∷ rest.rows;
            chain = one_more_hop y id dialer p rest.rows found through rest.chain;
          }
    ]

-- A table that reads as the checked one did, the candidate in its place, keeps its chains.
pub rewritten-HasChains :
    (paths after : List PathRow) (c : PathRow)
    → ((id : Text) → get_key id (by_id after []) ≡ get_key id (candidate_index paths c))
    → accepts (validate_path_graph paths c) ≡ true
    → HasChains paths
    → HasChains after
unfolding get_key
rewritten-HasChains paths after c e ok h =
    let x = by_id paths [] in
    let z = by_id after [] in
    let short = (validate_path_graph-HasShortChain paths c).0 ok in
    let own : HasChain z c.id =
      same_chain (candidate_index paths c) z c.id short.rows e short.chain in
    let off : AgreesOff c.id x z = λ id miss. e id ∙ rw miss refl in
    record {
      chains = λ id p found. elim (Bool-cases (same c.id id)) [
        | inl hit ↦
            let same_id : c.id ≡ id = ground (arith, same_iff c.id id) in rw (sym same_id) own
        | inr miss ↦
            let old = h.chains id p (sym (off id miss) ∙ found) in
            rechained x z c.id id old.rows off own old.chain
      ];
    }

pub by_id-append :
    (paths : List PathRow) (c : PathRow) (x : Index)
    → by_id (paths ++ (c ∷ [])) x ≡ put_key c.id c (by_id paths x)
unfolding by_id
by_id-append [] c x = refl
by_id-append (p ∷ paths) c x = by_id-append paths c (put_key p.id p x)

updated_off :
    (paths : List PathRow) (c : PathRow) (id : Text) (x y : Index)
    → same c.id id ≡ false
    → get_key id y ≡ get_key id x
    → get_key id (by_id (update_rows (has_path_id c.id) (λ q. c) paths) y)
      ≡ get_key id (by_id paths x)
unfolding by_id get_key update_rows
updated_off [] c id x y miss e = e
updated_off (p ∷ paths) c id x y miss e = elim (Bool-cases (same p.id c.id)) [
  | inl hit ↦
      let same_id : p.id ≡ c.id = ground (arith, same_iff p.id c.id) in
      rw hit
        (updated_off paths c id (put_key p.id p x) (put_key c.id c y) miss (rw (same_id, miss) e))
  | inr other ↦
      rw other (updated_off paths c id (put_key p.id p x) (put_key p.id p y) miss (rw e refl))
]

updated_own :
    (paths : List PathRow) (c : PathRow) (y : Index)
    → (any_row (has_path_id c.id) paths ≡ true) ⊎ (get_key c.id y ≡ some c)
    → get_key c.id (by_id (update_rows (has_path_id c.id) (λ q. c) paths) y) ≡ some c
unfolding by_id get_key update_rows any_row
updated_own [] c y e = elim e [ inl some_row ↦ cc | inr there ↦ there ]
updated_own (p ∷ paths) c y e = elim (Bool-cases (same p.id c.id)) [
  | inl hit ↦
      rw hit (updated_own paths c (put_key c.id c y) (inr (ground (arith, same_iff c.id c.id))))
  | inr other ↦ rw other (
      updated_own paths c (put_key p.id p y)
        (elim e [ inl some_row ↦ inl (ground arith) | inr there ↦ inr (rw other there) ]))
]

pub updated_reads :
    (paths : List PathRow) (c : PathRow)
    → any_row (has_path_id c.id) paths ≡ true
    → (id : Text)
    → get_key id (by_id (update_rows (has_path_id c.id) (λ q. c) paths) [])
      ≡ get_key id (candidate_index paths c)
unfolding get_key
updated_reads paths c there id = elim (Bool-cases (same c.id id)) [
  | inl hit ↦
      let same_id : c.id ≡ id = ground (arith, same_iff c.id id) in
      rw hit (rw (sym same_id) (updated_own paths c [] (inl there)))
  | inr miss ↦ rw miss (updated_off paths c id [] [] miss refl)
]

pub kept_reads :
    (paths : List PathRow) (k id : Text) (x y : Index)
    → same k id ≡ false
    → get_key id y ≡ get_key id x
    → get_key id (by_id (keep_rows (λ p. not (has_path_id k p)) paths) y)
      ≡ get_key id (by_id paths x)
unfolding by_id get_key keep_rows
kept_reads [] k id x y miss e = e
kept_reads (p ∷ paths) k id x y miss e = elim (Bool-cases (same p.id k)) [
  | inl hit ↦
      let same_id : p.id ≡ k = ground (arith, same_iff p.id k) in
      rw hit (kept_reads paths k id (put_key p.id p x) y miss (rw (same_id, miss) e))
  | inr other ↦
      rw other (kept_reads paths k id (put_key p.id p x) (put_key p.id p y) miss (rw e refl))
]

pub kept_gone :
    (paths : List PathRow) (k : Text) (y : Index)
    → get_key k y ≡ none
    → get_key k (by_id (keep_rows (λ p. not (has_path_id k p)) paths) y) ≡ none
unfolding by_id get_key keep_rows
kept_gone [] k y e = e
kept_gone (p ∷ paths) k y e = elim (Bool-cases (same p.id k)) [
  | inl hit ↦ rw hit (kept_gone paths k y e)
  | inr other ↦ rw other (kept_gone paths k (put_key p.id p y) (rw other e))
]

pub no_row-get_key :
    (q : PathRow → Bool) (paths : List PathRow) (x : Index) (id : Text) (p : PathRow)
    → any_row q paths ≡ false
    → ((r : PathRow) → get_key id x ≡ some r → q r ≡ false)
    → get_key id (by_id paths x) ≡ some p
    → q p ≡ false
unfolding by_id get_key any_row
no_row-get_key q [] x id p a h e = h p e
no_row-get_key q (r ∷ paths) x id p a h e =
    no_row-get_key q paths (put_key r.id r x) id p (ground arith)
      (λ s f. elim (Bool-cases (same r.id id)) [
        | inl hit ↦ ground arith
        | inr miss ↦ h s (rw miss at f)
      ])
      e
