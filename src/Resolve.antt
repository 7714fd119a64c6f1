-- ===== src/Resolve.antt =====
-- The order of a user's paths: the end of ForUser (internal/server/pathresolve/resolve.go), which sorts
-- the paths that resolved and puts each path's dialers before it.

mod Sorted
mod Order
mod Examples
use box_fleet.Base.{
  ℤ, Text, same, before, Bool, true, false, ◌||◌, ◌&&◌, not, Option, none, some, List, [], ◌∷◌,
  ◌++◌, if◌then◌else◌, ltb_int, map, get_key, put_key,
}
use box_fleet.Paths.{has_id}

-- Of a resolved path, what the order depends on.
pub record Hop : Type 0 where
  pub path_id : Text
  pub name : Text
  pub sort_order : ℤ

-- ResolvedPath, whose Dialer is nil or a resolved path.
pub data ResolvedPath : Type 0 where
  direct : Hop → ResolvedPath
  through : Hop → ResolvedPath → ResolvedPath

abbrev pub hop_of : ResolvedPath → Hop
hop_of (direct h) = h
hop_of (through h dialer) = h

abbrev pub id_of : ResolvedPath → Text
id_of r = (hop_of r).path_id

-- The comparison of sort.SliceStable.
abbrev pub comes_before : Hop → Hop → Bool
comes_before a b =
    if ltb_int a.sort_order b.sort_order
    then true
    else if ltb_int b.sort_order a.sort_order
    then false
    else before a.name b.name

unfoldable pub insert_path : ResolvedPath → List ResolvedPath → List ResolvedPath
insert_path r [] = r ∷ []
insert_path r (x ∷ xs) =
    let rest = x ∷ insert_path r xs in
    if comes_before (hop_of x) (hop_of r) then rest else r ∷ x ∷ xs

-- sort.SliceStable: equal paths keep their order.
unfoldable pub sort_paths : List ResolvedPath → List ResolvedPath
sort_paths [] = []
sort_paths (r ∷ rs) = insert_path r (sort_paths rs)

-- The variables `emitted` and `ordered`.
pub record Emission : Type 0 where
  pub emitted : List Text
  pub ordered : List ResolvedPath

abbrev pub emit_one : ResolvedPath → Emission → Emission
emit_one r s = record { emitted = id_of r ∷ s.emitted; ordered = s.ordered ++ (r ∷ []) }

-- The function `emit`.
unfoldable pub emit : ResolvedPath → Emission → Emission
emit (direct h) s = if has_id h.path_id s.emitted then s else emit_one (direct h) s
emit (through h dialer) s =
    let after = emit dialer s in
    if has_id h.path_id s.emitted then s else emit_one (through h dialer) after

unfoldable pub emit_all : List ResolvedPath → Emission → Emission
emit_all [] s = s
emit_all (r ∷ rs) s = emit_all rs (emit r s)

abbrev pub nothing_emitted : Emission
nothing_emitted = record { emitted = []; ordered = [] }

-- The check of names, against those that were seen.
unfoldable pub names_differ : List Text → List ResolvedPath → Bool
names_differ seen [] = true
names_differ seen (r ∷ rs) =
    let rest = names_differ ((hop_of r).name ∷ seen) rs in
    if has_id (hop_of r).name seen then false else rest

-- From the selectable paths to Result.Selectable and Result.Ordered, none where two names conflict.
unfoldable pub order_paths : List ResolvedPath → Option (List ResolvedPath × List ResolvedPath)
order_paths selectable =
    let sorted = sort_paths selectable in
    let ordered = (emit_all sorted nothing_emitted).ordered in
    if names_differ [] ordered then some (sorted, ordered) else none
