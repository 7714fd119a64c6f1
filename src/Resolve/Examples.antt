-- ===== src/Resolve/Examples.antt =====
-- The order of two paths that dial through a third.
use box_fleet.Base.{pos, refl, Text, text, same, before, List, [], ◌∷◌}
use box_fleet.Paths.{has_id}
use box_fleet.Resolve.{
  Hop, ResolvedPath, direct, through, insert_path, sort_paths, emit, emit_all, names_differ,
  order_paths,
}
use box_fleet.Resolve.Order.{IsProfileOrder, order_paths-IsProfileOrder}

abbrev hop : Text → Hop
hop name = record { path_id = name; name = name; sort_order = pos 0 }

abbrev exit : ResolvedPath
exit = direct (hop (text "a"))

abbrev chained : Text → ResolvedPath
chained name = through (hop name) exit

abbrev in_reverse : List ResolvedPath
in_reverse = chained (text "c") ∷ chained (text "b") ∷ []

order_paths-IsProfileOrder_example :
    IsProfileOrder in_reverse
      (chained (text "b") ∷ chained (text "c") ∷ [])
      (exit ∷ chained (text "b") ∷ chained (text "c") ∷ [])
unfolding order_paths sort_paths insert_path emit_all emit names_differ has_id same before
order_paths-IsProfileOrder_example =
    order_paths-IsProfileOrder in_reverse (chained (text "b") ∷ chained (text "c") ∷ [])
      (exit ∷ chained (text "b") ∷ chained (text "c") ∷ []) refl
