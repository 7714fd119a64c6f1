-- ===== src/Paths.antt =====
-- Paths (internal/server/db/paths.go): how a client reaches an endpoint, directly or through a dialer,
-- which is another path. The rows, and the check of the graph that they make.
mod Chain
mod Graph
mod Examples
mod Writes
mod Acyclic
mod Rounds
use box_fleet.Base.{
  ℕ, ℤ, zero, suc, ◌+◌, Text, same, Bool, true, false, Option, none, some, List, [], ◌∷◌, ltb,
  if◌then◌else◌, get_key, put_key, find_row, any_row, update_rows, keep_rows, not, ◌++◌,
}

pub data Visibility : Type 0 where
  selectable dependency : Visibility

-- A row of the table, without its times.
pub record PathRow : Type 0 where
  pub id : Text
  pub name : Text
  pub display_name : Text
  pub endpoint_id : Text
  pub dialer_path_id : Option Text
  pub enabled : Bool
  pub visibility : Visibility
  pub managed : Bool
  pub sort_order : ℤ

abbrev pub Index : Type 0
Index = List (Text × PathRow)

-- ListPaths put into the map `byID`.
unfoldable pub by_id : List PathRow → Index → Index
by_id [] index = index
by_id (p ∷ paths) index = by_id paths (put_key p.id p index)

unfoldable pub has_id : Text → List Text → Bool
has_id id [] = false
has_id id (x ∷ xs) = if same x id then true else has_id id xs

unfoldable pub without_id : Text → List Text → List Text
without_id id [] = []
without_id id (x ∷ xs) = let rest = without_id id xs in if same x id then rest else x ∷ rest

pub data GraphFault : Type 0 where
  dialer_not_found path_not_found cycle : Text → GraphFault
  depth_exceeded out_of_rounds : GraphFault

-- The maps `visiting` and `visited`.
pub record Marks : Type 0 where
  pub visiting : List Text
  pub visited : List Text

pub data Visit : Type 0 where
  faulty : GraphFault → Visit
  passed : Marks → Visit

abbrev pub and_visit : Visit → (Marks → Visit) → Visit
and_visit (faulty e) f = faulty e
and_visit (passed m) f = f m

-- MaxDialerPathDepth
abbrev pub max_dialer_path_depth : ℕ
max_dialer_path_depth = 3

abbrev pub enter : Text → Marks → Marks
enter id m = record { visiting = id ∷ m.visiting; visited = m.visited }

abbrev pub leave : Text → Marks → Visit
leave id m = passed (record { visiting = without_id id m.visiting; visited = id ∷ m.visited })

-- The recursion of `visit` into the dialer, given as a function.
abbrev pub visit_dialer : (Text → Marks → Visit) → Option Text → Marks → Visit
visit_dialer go none m = passed m
visit_dialer go (some dialer) m = go dialer m

abbrev pub visit_found : (Text → Marks → Visit) → Text → Option PathRow → Marks → Visit
visit_found go id none m = faulty (path_not_found id)
visit_found go id (some p) m =
    and_visit (visit_dialer go p.dialer_path_id (enter id m)) (λ n. leave id n)

-- The function `visit` of validatePathGraph, whose depth ends it; see Paths.Graph for the rounds.
unfoldable pub visit : ℕ → Index → Text → ℕ → Marks → Visit
visit zero index id depth m = faulty out_of_rounds
visit (suc rounds) index id depth m =
    let found =
      visit_found (λ dialer n. visit rounds index dialer (depth + 1) n) id (get_key id index) m in
    if has_id id m.visiting
    then faulty (cycle id)
    else if ltb max_dialer_path_depth depth
    then faulty depth_exceeded
    else if has_id id m.visited
    then passed m
    else found

abbrev pub no_marks : Marks
no_marks = record { visiting = []; visited = [] }

abbrev pub dialer_missing : Text → Option PathRow → Option GraphFault
dialer_missing dialer none = some (dialer_not_found dialer)
dialer_missing dialer (some p) = none

abbrev pub check_dialer : Index → Option Text → Option GraphFault
check_dialer index none = none
check_dialer index (some dialer) = dialer_missing dialer (get_key dialer index)

abbrev pub or_visit : Option GraphFault → Visit → Visit
or_visit none v = v
or_visit (some e) v = faulty e

abbrev pub rounds_enough : ℕ
rounds_enough = 4

-- The map that validatePathGraph looks into: the rows, and the candidate over the row of its id.
abbrev pub candidate_index : List PathRow → PathRow → Index
candidate_index paths candidate = put_key candidate.id candidate (by_id paths [])

-- validatePathGraph
unfoldable pub validate_path_graph : List PathRow → PathRow → Visit
validate_path_graph paths candidate =
    let index = candidate_index paths candidate in
    or_visit (check_dialer index candidate.dialer_path_id)
      (visit rounds_enough index candidate.id 1 no_marks)

abbrev is_text : Text → Option Text → Bool
is_text t none = false
is_text t (some u) = same u t

-- CHECK (dialer_path_id IS NULL OR dialer_path_id <> id)
abbrev pub own_dialer : PathRow → Bool
own_dialer p = is_text p.id p.dialer_path_id

abbrev pub has_path_id : Text → PathRow → Bool
has_path_id id p = same p.id id

-- INSERT INTO paths: none where a row has the id, or the path would be its own dialer.
unfoldable pub insert_path : PathRow → List PathRow → Option (List PathRow)
insert_path p paths =
    if any_row (has_path_id p.id) paths
    then none
    else if own_dialer p
    then none
    else some (paths ++ (p ∷ []))

-- UPDATE paths SET ... WHERE id = ?9
unfoldable pub update_path : PathRow → List PathRow → Option (List PathRow)
update_path p paths =
    if own_dialer p then none else some (update_rows (has_path_id p.id) (λ q. p) paths)

abbrev pub dials : Text → PathRow → Bool
dials id p = is_text id p.dialer_path_id

-- DELETE FROM paths WHERE id = ?1: none where a path dials through it, and the foreign key restricts.
unfoldable pub delete_path : Text → List PathRow → Option (List PathRow)
delete_path id paths =
    if any_row (dials id) paths then none else some (keep_rows (λ p. not (has_path_id id p)) paths)

abbrev pub if_accepted : Visit → Option (List PathRow) → Option (List PathRow)
if_accepted (faulty e) after = none
if_accepted (passed m) after = after

-- The table's writes: the check of the graph and the statement of CreatePath and UpdatePath, whose
-- other checks only refuse, and the statement of DeletePath.
pub data Write : Type 0 where
  created updated : PathRow → Write
  deleted : Text → Write

unfoldable pub write_row : Write → List PathRow → Option (List PathRow)
write_row (created p) paths = if_accepted (validate_path_graph paths p) (insert_path p paths)
write_row (updated p) paths =
    if any_row (has_path_id p.id) paths
    then if_accepted (validate_path_graph paths p) (update_path p paths)
    else none
write_row (deleted id) paths = delete_path id paths

abbrev pub or_keep : Option (List PathRow) → List PathRow → List PathRow
or_keep none paths = paths
or_keep (some after) paths = after

-- The table after some writes; one that is refused leaves it as it is.
unfoldable pub run_writes : List Write → List PathRow → List PathRow
run_writes [] paths = paths
run_writes (w ∷ ws) paths = run_writes ws (or_keep (write_row w paths) paths)
