-- ===== src/Paths/Writes.antt =====
-- The chains of the table's paths along any writes.
use box_fleet.Base.{
  ◌≡◌, refl, sym, ◌∙◌, Text, Bool, true, false, not, Option, none, some, List, [], ◌∷◌, ◌++◌,
  get_key, arith, same, same_iff, Bool-cases, Option-cases, inl, inr, any_row, update_rows,
  keep_rows, if◌then◌else◌,
}
use box_fleet.Paths.{
  PathRow, Index, by_id, validate_path_graph, Visit, passed, faulty, has_path_id, insert_path,
  update_path, delete_path, dials, if_accepted, Write, created, updated, deleted, write_row,
  or_keep, run_writes,
}
use box_fleet.Paths.Chain.{IsChain, HasChain, one_hop, one_more_hop}
use box_fleet.Paths.Graph.{accepts}
use box_fleet.Paths.Acyclic.{
  HasChains, AgreesOff, rewritten-HasChains, by_id-append, updated_reads, kept_reads, kept_gone,
  no_row-get_key,
}

-- A chain that nothing in the table continues through a path does without that path.
avoiding :
    (x y : Index) (k id : Text) (ps : List PathRow)
    → AgreesOff k x y
    → ((i : Text) (p : PathRow) → get_key i x ≡ some p → dials k p ≡ false)
    → same k id ≡ false
    → IsChain x id ps
    → HasChain y id
avoiding x y k id [] a d miss c = elim c [ ]
avoiding x y k id (p ∷ ps) a d miss c =
    let found : get_key id y ≡ some p = a id miss ∙ c.0 in
    elim (Option-cases p.dialer_path_id) [
      | inl direct ↦ record { rows = p ∷ []; chain = one_hop y id p found direct }
      | inr (dialer, through) ↦
          let apart : same dialer k ≡ false = rw through at (d id p c.0) in
          let rest =
            avoiding x y k dialer ps a d (ground (arith, same_iff dialer k, same_iff k dialer))
              (rw through at (c.1)) in
          record {
            rows = p ∷ rest.rows;
            chain = one_more_hop y id dialer p rest.rows found through rest.chain;
          }
    ]

deleted-HasChains :
    (paths : List PathRow) (k : Text)
    → any_row (dials k) paths ≡ false
    → HasChains paths
    → HasChains (keep_rows (λ p. not (has_path_id k p)) paths)
unfolding get_key
deleted-HasChains paths k undialed h =
    let x = by_id paths [] in
    let y = by_id (keep_rows (λ p. not (has_path_id k p)) paths) [] in
    let off : AgreesOff k x y = λ id miss. kept_reads paths k id [] [] miss refl in
    record {
      chains = λ id p found. elim (Bool-cases (same k id)) [
        | inl hit ↦
            let same_id : k ≡ id = ground (arith, same_iff k id) in
            let gone = rw same_id at (kept_gone paths k [] refl) in ground (arith, found, gone)
        | inr miss ↦
            let old = h.chains id p (sym (off id miss) ∙ found) in
            avoiding x y k id old.rows off
              (λ i q f. no_row-get_key (dials k) paths [] i q undialed (λ r g. cc) f) miss old.chain
      ];
    }

if_accepted-some :
    (v : Visit) (o : Option (List PathRow)) (after : List PathRow)
    → if_accepted v o ≡ some after
    → (accepts v ≡ true) × (o ≡ some after)
if_accepted-some (faulty e) o after h = cc
if_accepted-some (passed m) o after h = (refl, h)

if-some :
    (b : Bool) (o : Option (List PathRow)) (after : List PathRow)
    → (if b then o else none) ≡ some after
    → (b ≡ true) × (o ≡ some after)
if-some true o after h = (refl, h)
if-some false o after h = cc

write_row-HasChains :
    (w : Write) (paths after : List PathRow)
    → write_row w paths ≡ some after
    → HasChains paths
    → HasChains after
unfolding write_row insert_path update_path delete_path
write_row-HasChains (created p) paths after e h =
    let checked = if_accepted-some (validate_path_graph paths p) (insert_path p paths) after e in
    let inserted = checked.1 in
    let same_table : paths ++ (p ∷ []) ≡ after = ground arith in
    rw (sym same_table) (
      rewritten-HasChains paths (paths ++ (p ∷ [])) p (λ id. rw (by_id-append paths p []) refl)
        checked.0 h)
write_row-HasChains (updated p) paths after e h =
    let there = if-some (any_row (has_path_id p.id) paths) _ after e in
    let checked =
      if_accepted-some (validate_path_graph paths p) (update_path p paths) after there.1 in
    let written = checked.1 in
    let same_table : update_rows (has_path_id p.id) (λ q. p) paths ≡ after = ground arith in
    rw (sym same_table) (
      rewritten-HasChains paths (update_rows (has_path_id p.id) (λ q. p) paths) p
        (updated_reads paths p there.0) checked.0 h)
write_row-HasChains (deleted k) paths after e h =
    let same_table : keep_rows (λ p. not (has_path_id k p)) paths ≡ after = ground arith in
    rw (sym same_table) (deleted-HasChains paths k (ground arith) h)

or_keep-HasChains :
    (o : Option (List PathRow)) (paths : List PathRow)
    → ((after : List PathRow) → o ≡ some after → HasChains after)
    → HasChains paths
    → HasChains (or_keep o paths)
or_keep-HasChains none paths w h = h
or_keep-HasChains (some after) paths w h = w after refl

-- If every path of the table leads through its dialers to one that dials directly, then so does every
-- path after any creations, updates and deletions, in any order, refused or not: no cycle of dialers
-- arises, and no path loses its dialer.
pub run_writes-HasChains :
    (ws : List Write) (paths : List PathRow) → HasChains paths → HasChains (run_writes ws paths)
unfolding run_writes
run_writes-HasChains [] paths h = h
run_writes-HasChains (w ∷ ws) paths h =
    run_writes-HasChains ws (or_keep (write_row w paths) paths) (
      or_keep-HasChains (write_row w paths) paths (λ after e. write_row-HasChains w paths after e h)
        h)
