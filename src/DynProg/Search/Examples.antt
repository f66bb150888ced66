-- ===== src/DynProg/Search/Examples.antt =====
-- A join search of three tables.
use post_bound.Base.{ℕ, true, false, ◌≡◌, refl, List, [], ◌∷◌, ok}
use post_bound.Base.{
  ◌>>=◌, get, put, inter, union, insert, mem, set_eq, subset, text_eq, number_key, set_key,
}
use post_bound.Core.Table.{TableReference, table_eq, normalize, table_key}
use post_bound.DynProg.Paths.{sort_paths, insert_path}
use post_bound.DynProg.Search.{
  Search, standard_join_search, search_levels, join_search_one_level, join_bushy, join_outer,
  join_inner, join_pair, build_join_rel, rels_at, finish_level, init_base_rels,
}
use post_bound.Core.Cardinality.Rows.{unknown, repr}
use post_bound.DynProg.Paths.{Cost, finite, Plan, RelOptInfo, set_cheapest}

abbrev named : ℕ → TableReference
named n = record { full_name = n ∷ []; alias = []; virtual = false; schema = []; catalog = [] }

abbrev a_b_c : List TableReference
a_b_c = named b'a' ∷ named b'b' ∷ named b'c' ∷ []

-- A path is a cost.
abbrev plan : Plan ℕ Cost
plan = record { estimated_cost = λ p. p; sort_keys = λ p. [] }

-- Each join gets one path; every two relations that share no table may be joined.
abbrev search : Search Cost
search = record {
  calculate_estimate = λ ts. repr unknown;
  joins_between = λ xs ys. true;
  add_paths_to_joinrel = λ rel outer inner. record rel { pathlist = finite 100 ∷ rel.pathlist };
  generate_gather_paths = λ rel. rel;
}

abbrev base_rels : List (RelOptInfo Cost)
base_rels = init_base_rels plan search a_b_c

-- The search returns on these relations.
search_returns :
    (standard_join_search plan search base_rels >>= λ rel. ok rel.intermediate) ≡ ok a_b_c
unfolding standard_join_search search_levels join_search_one_level join_bushy join_outer join_inner
    join_pair build_join_rel rels_at finish_level set_cheapest init_base_rels get put inter union
    insert mem set_eq subset table_eq normalize text_eq sort_paths insert_path
search_returns = refl
