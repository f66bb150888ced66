-- ===== src/DynProg/Examples.antt =====
-- Paths and sort orders at which the theorems are applied. A path is a cost and a sort order.
use post_bound.Base.{
  true, false, ◌≡◌, ◌≢◌, ◌↔◌, List, [], ◌∷◌, none, All, Any, Returns, text_key, Text,
}
use post_bound.Core.Cardinality.Rows.{unknown, repr}
use post_bound.DynProg.Sorting.{SortKey, sorting_subsumes, StartsWith, sorting_subsumes_iff}
use post_bound.DynProg.Paths.{Cost, finite, Plan, RelOptInfo, add_to_paths, set_cheapest}
use post_bound.DynProg.Paths.Retained.{Rivals, add_to_paths_retains}
use post_bound.DynProg.Paths.Cheapest.{Chosen, set_cheapest_lem}

abbrev by_name : List (SortKey Text)
by_name = record { members = (b'a' ∷ []) ∷ (b'b' ∷ []) ∷ []; ascending = true } ∷ []

abbrev by_name_and_year : List (SortKey Text)
by_name_and_year =
    record { members = (b'b' ∷ []) ∷ []; ascending = true }
    ∷ record { members = (b'y' ∷ []) ∷ []; ascending = false }
    ∷ []

abbrev CostedPath : Type 0
CostedPath = Cost × List (SortKey Text)

abbrev plan : Plan Text CostedPath
plan = record { estimated_cost = λ p. p.0; sort_keys = λ p. p.1 }

abbrev scan_path : CostedPath
scan_path = (finite 100, [])

abbrev index_path : CostedPath
index_path = (finite 120, by_name)

abbrev sorted_path : CostedPath
sorted_path = (finite 130, by_name_and_year)

abbrev rel : RelOptInfo CostedPath
rel = record {
  intermediate = [];
  pathlist = index_path ∷ scan_path ∷ [];
  partial_paths = [];
  cheapest_path = none;
  cheapest_partial_path = none;
  cardinality = repr unknown;
}

rel_has_paths : rel.pathlist ≢ []
rel_has_paths e = cc

sorting_subsumes_iff_example :
    (sorting_subsumes by_name_and_year by_name ≡ true) ↔ StartsWith by_name_and_year by_name
sorting_subsumes_iff_example = sorting_subsumes_iff by_name_and_year by_name

add_to_paths_retains_example :
    All
      (λ p. Any (Rivals plan p) (add_to_paths plan sorted_path (index_path ∷ scan_path ∷ [])))
      (sorted_path ∷ index_path ∷ scan_path ∷ [])
add_to_paths_retains_example = add_to_paths_retains plan sorted_path (index_path ∷ scan_path ∷ [])

set_cheapest_lem_example :
    Returns (λ r. Chosen plan rel.pathlist r.cheapest_path) (set_cheapest plan rel)
set_cheapest_lem_example = set_cheapest_lem plan rel rel_has_paths
