-- ===== src/Paths/Examples.antt =====
-- The theorems on paths at a small table, and what an edit of a dialer does to the depth.
use box_fleet.Base.{
  ℕ, pos, ◌≡◌, ◌≢◌, ◌↔◌, refl, Text, text, true, false, Option, none, some, List, [], ◌∷◌, same,
  get_key, any_row, update_rows, keep_rows, ◌+◌,
}
use box_fleet.Paths.{
  PathRow, selectable, by_id, candidate_index, validate_path_graph, visit, no_marks, has_id,
  without_id, insert_path, update_path, delete_path, Write, created, updated, deleted, write_row,
  run_writes, faulty, depth_exceeded, out_of_rounds, check_dialer, or_visit,
}
use box_fleet.Paths.Chain.{HasShortChain}
use box_fleet.Paths.Graph.{accepts, validate_path_graph-HasShortChain}
use box_fleet.Paths.Rounds.{validate_path_graph-ends}
use box_fleet.Paths.Acyclic.{HasChains}
use box_fleet.Paths.Writes.{run_writes-HasChains}

abbrev path : Text → Option Text → PathRow
path id dialer = record {
  id = id;
  name = id;
  display_name = [];
  endpoint_id = text "e";
  dialer_path_id = dialer;
  enabled = true;
  visibility = selectable;
  managed = false;
  sort_order = pos 0;
}

abbrev direct_path : PathRow
direct_path = path (text "a") none

abbrev chained_path : PathRow
chained_path = path (text "b") (some (text "a"))

validate_path_graph-HasShortChain_example :
    (accepts (validate_path_graph (direct_path ∷ []) chained_path) ≡ true)
    ↔ HasShortChain (candidate_index (direct_path ∷ []) chained_path) (text "b")
validate_path_graph-HasShortChain_example =
    validate_path_graph-HasShortChain (direct_path ∷ []) chained_path

validate_path_graph-ends_example :
    (validate_path_graph (direct_path ∷ []) chained_path ≢ faulty out_of_rounds)
    × ((more : ℕ)
        → or_visit
            (check_dialer (candidate_index (direct_path ∷ []) chained_path) (some (text "a")))
            (visit
              (4 + more)
              (candidate_index (direct_path ∷ []) chained_path)
              (text "b")
              1
              no_marks)
          ≡ validate_path_graph (direct_path ∷ []) chained_path)
validate_path_graph-ends_example = validate_path_graph-ends (direct_path ∷ []) chained_path

no_paths-HasChains : HasChains []
unfolding by_id get_key
no_paths-HasChains = record { chains = λ id p found. cc }

abbrev four_writes : List Write
four_writes =
    created direct_path
    ∷ created chained_path
    ∷ updated (path (text "a") (some (text "b")))
    ∷ deleted (text "a")
    ∷ []

run_writes-HasChains_example : HasChains (run_writes four_writes [])
run_writes-HasChains_example = run_writes-HasChains four_writes [] no_paths-HasChains

-- The cycle of the third write and the deletion of a dialer in use are refused.
test_four_writes : run_writes four_writes [] ≡ direct_path ∷ chained_path ∷ []
unfolding run_writes write_row insert_path update_path delete_path validate_path_graph visit has_id
    without_id by_id get_key same any_row update_rows keep_rows
test_four_writes = refl

-- A chain of three, whose last path is then given a dialer.
abbrev deep_writes : List Write
deep_writes =
    created chained_path
    ∷ created (path (text "c") (some (text "b")))
    ∷ created (path (text "d") none)
    ∷ updated (path (text "a") (some (text "d")))
    ∷ []

test_deep_chain :
    validate_path_graph
      (run_writes deep_writes (direct_path ∷ []))
      (path (text "c") (some (text "b")))
    ≡ faulty depth_exceeded
unfolding run_writes write_row insert_path update_path validate_path_graph visit has_id without_id
    by_id get_key same any_row update_rows
test_deep_chain = refl
