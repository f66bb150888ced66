-- ===== src/DynProg/Enumerate/Whole.antt =====
-- The plans that the join search of postbound/opt/_dynprog.py finds.
use post_bound.Base.{
  Bool, true, false, ◌≡◌, refl, Key, List, [], ◌∷◌, Option, none, some, Result, ok, err, OnOk,
  OnOk-map, mem_of_set_eq, set_eq, set_key, All, All-map, Bool-cases, inl, inr, sym, ◌∙◌, subst,
}
use post_bound.Core.Table.{TableReference, table_key}
use post_bound.Core.Cardinality.{Cardinality}
use post_bound.DynProg.Create.{Rel, view, added}
use post_bound.DynProg.Paths.{set_cheapest, add_path, standard_add_path, isinf, sort_paths, first}
use post_bound.DynProg.Paths.Cheapest.{sort_paths-All}
use post_bound.DynProg.Search.{standard_join_search}
use post_bound.DynProg.Search.Levels.{Joined, KeepsTables}
use post_bound.DynProg.Search.Sound.{GatherKeeps, AreBase, standard_join_search_lem}
use post_bound.DynProg.Create.{Planner}
use post_bound.DynProg.JoinPaths.{add_paths_to_joinrel}
use post_bound.DynProg.JoinPaths.Tables.{IsFor, NamesTables, NamesColumns}
use post_bound.DynProg.JoinPaths.Relation.{IsRelFor, OfSome}
use post_bound.DynProg.JoinPaths.Joined.{add_paths_to_joinrel-IsRelFor}
use post_bound.DynProg.JoinPaths.Unchanged.{kept_joinrel, kept_gathered}
use post_bound.DynProg.ScanPaths.{generate_gather_paths}
use post_bound.DynProg.ScanPaths.Kept.{generate_gather_paths-IsRelFor}
use post_bound.DynProg.Enumerate.{Construction, returned, quiet, search_joins, construction}
use post_bound.DynProg.Enumerate.Agrees.{Follows, search_joins-standard_join_search}
use post_bound.DynProg.Enumerate.Kept.{AreKept, search_joins-Kept}
use post_bound.Plans.{QueryPlan, node}
use post_bound.Plans.Tables.{HasTables}

OnOk-both :
    {A : Type 0} (P Q : A → Type 0) (r : Result A) → OnOk P r → OnOk Q r → OnOk (λ a. P a × Q a) r
OnOk-both P Q (ok a) p q = (p, q)
OnOk-both P Q (err e) p q = tt

OnOk-Follows : {A : Type 0} (P : A → Type 0) (r q : Result A) → Follows r q → OnOk P q → OnOk P r
OnOk-Follows P (ok a) q e h = subst (OnOk P) e h
OnOk-Follows P (err e) q t h = tt

returned-OnOk :
    {A : Type 0} (P : A → Type 0) (a : A) (r : Result A) → P a → OnOk P r → P (returned a r)
returned-OnOk P a (ok b) p h = h
returned-OnOk P a (err e) p h = p

module _ {C E : Type 0} ⦃key : Key E⦄ ⦃source : HasTables E⦄ (planner : Planner C E) where
  cheapest-OfSome :
      (zs : List TableReference) (paths : List (QueryPlan E)) (otherwise : Option (QueryPlan E))
      → All (IsFor zs) paths
      → OfSome planner (IsFor zs) otherwise
      → OfSome planner (IsFor zs) (first (view planner) paths otherwise)
  cheapest-OfSome zs [] otherwise all h = h
  cheapest-OfSome zs (p ∷ ps) otherwise (q, all) h = q

  pub set_cheapest-IsRelFor :
      (zs : List TableReference) (rel : Rel planner) (ps : List (QueryPlan E))
      → rel.pathlist ≡ ps
      → IsRelFor planner zs rel
      → OnOk (IsRelFor planner zs) (set_cheapest (view planner) rel)
  unfolding set_cheapest
  set_cheapest-IsRelFor zs rel [] e h = rw (e, set_cheapest) tt
  set_cheapest-IsRelFor zs rel (p ∷ ps) e (same, full, partial, (cheapest, cheapest_partial)) =
      let sorted = sort_paths-All (view planner) (IsFor zs) rel.pathlist full in
      let partial_sorted = sort_paths-All (view planner) (IsFor zs) rel.partial_paths partial in
      rw (e, set_cheapest)
        (
          same,
          sorted,
          partial_sorted,
          (
            cheapest-OfSome zs (sort_paths (view planner) rel.pathlist) rel.cheapest_path sorted
                cheapest,
            cheapest-OfSome zs (sort_paths (view planner) rel.partial_paths)
                rel.cheapest_partial_path partial_sorted cheapest_partial,
          ),
        )

module _ {C E : Type 0} ⦃key : Key E⦄ ⦃source : HasTables E⦄ (planner : Planner C E)
    (estimate : List TableReference → Cardinality) (no_hook : planner.hook ≡ none) where
  abbrev pub c : Construction (QueryPlan E)
  c = construction planner estimate

  -- A path that is added leaves the tables of a relation alone.
  added-intermediate :
      (ts : List TableReference) (is_partial : Bool) (path : QueryPlan E) (rel : Rel planner)
      → rel.intermediate ≡ ts
      → (added planner is_partial path rel).intermediate ≡ ts
  unfolding add_path standard_add_path
  added-intermediate ts is_partial path rel e =
      elim (Bool-cases (isinf (planner.cost_of (node path).estimates.cost))) [
        | inl illegal ↦ rw illegal e
        | inr legal ↦ rw (legal, no_hook) (standard is_partial)
      ]
    where
      standard : (b : Bool) → (standard_add_path (view planner) b path rel).intermediate ≡ ts
      standard true = e
      standard false = e

  pub construction-KeepsTables : (base : List TableReference) → KeepsTables (quiet c) base
  construction-KeepsTables base rel outer inner =
      returned-OnOk (λ (r : Rel planner). r.intermediate ≡ rel.intermediate) rel
        (add_paths_to_joinrel planner rel outer inner) refl
        (kept_joinrel planner (λ (r : Rel planner). r.intermediate ≡ rel.intermediate)
          (added-intermediate rel.intermediate) rel outer inner refl)

  pub construction-GatherKeeps : GatherKeeps (view planner) (quiet c)
  construction-GatherKeeps rel =
      returned-OnOk (λ (r : Rel planner). r.intermediate ≡ rel.intermediate) rel
        (generate_gather_paths planner rel) refl
        (kept_gathered planner (λ (r : Rel planner). r.intermediate ≡ rel.intermediate)
          (added-intermediate rel.intermediate) rel refl)

  -- Every path of a relation is for the tables of the relation.
  abbrev pub IsProper : Rel planner → Type 0
  IsProper rel = IsRelFor planner rel.intermediate rel

  pub IsRelFor-IsProper :
      (zs : List TableReference) (rel : Rel planner) → IsRelFor planner zs rel → IsProper rel
  IsRelFor-IsProper zs rel h = subst (λ ts. IsRelFor planner ts rel) (sym h.0) h

  construction-AreKept :
      NamesTables planner → NamesColumns planner → AreKept (view planner) c IsProper
  construction-AreKept conditions columns = record {
    new = λ ts. (refl, tt, tt, (tt, tt));
    adds = λ rel outer inner u ho hi h.
        OnOk-map (IsRelFor planner rel.intermediate)
          (λ r. (r.intermediate ≡ rel.intermediate) × IsProper r)
          (add_paths_to_joinrel planner rel outer inner)
          (λ r g. (g.0, IsRelFor-IsProper rel.intermediate r g))
          (add_paths_to_joinrel-IsRelFor planner no_hook conditions columns outer.intermediate
            inner.intermediate rel.intermediate u rel outer inner refl ho.3 hi.3 h);
    gathers = λ rel h.
        OnOk-map (IsRelFor planner rel.intermediate) IsProper (generate_gather_paths planner rel)
          (IsRelFor-IsProper rel.intermediate)
          (generate_gather_paths-IsRelFor planner no_hook rel.intermediate rel h);
    chooses = λ rel h.
        OnOk-map (IsRelFor planner rel.intermediate) IsProper (set_cheapest (view planner) rel)
          (IsRelFor-IsProper rel.intermediate)
          (set_cheapest-IsRelFor planner rel.intermediate rel rel.pathlist refl h);
  }

  -- Every path of a relation is for the given tables.
  abbrev pub IsComplete : List TableReference → Rel planner → Type 0
  IsComplete base rel =
      All (IsFor base) rel.pathlist
      × All (IsFor base) rel.partial_paths
      × OfSome planner (IsFor base) rel.cheapest_path

  IsFor-set_eq :
      (base zs : List TableReference)
      → set_eq zs base ≡ true
      → (path : QueryPlan E) → IsFor zs path
      → IsFor base path
  IsFor-set_eq base zs e path h k = h k ∙ mem_of_set_eq k zs base e

  OfSome-map :
      (P Q : QueryPlan E → Type 0) (path : Option (QueryPlan E))
      → ((p : QueryPlan E) → P p → Q p)
      → OfSome planner P path
      → OfSome planner Q path
  OfSome-map P Q none f h = h
  OfSome-map P Q (some p) f h = f p h

  complete :
      (base : List TableReference) (rel : Rel planner)
      → set_eq rel.intermediate base ≡ true
      → IsProper rel
      → IsComplete base rel
  complete base rel e (same, full, partial, cheapest) =
      let step = IsFor-set_eq base rel.intermediate e in
      (
        All-map (IsFor rel.intermediate) (IsFor base) rel.pathlist step full,
        All-map (IsFor rel.intermediate) (IsFor base) rel.partial_paths step partial,
        OfSome-map (IsFor rel.intermediate) (IsFor base) rel.cheapest_path step cheapest.0,
      )

  -- If the enumerator has no hook, the condition between two sets of tables names only these, and
  -- the expression of a column names the table of the column: on initial relations that are one
  -- for each table of the query and whose paths are for the tables of their relation,
  -- _standard_join_search with the paths that _add_paths_to_joinrel and _generate_gather_paths
  -- construct raises or returns a relation all of whose paths, the cheapest one and the partial
  -- ones included, are plans for exactly the tables of the query; these are joined by joins of
  -- disjoint parts, each pair of which has a condition.
  pub search_joins-IsComplete :
      (base : List TableReference) (initial_rels : List (Rel planner))
      → NamesTables planner
      → NamesColumns planner
      → AreBase
          (view planner)
          (quiet c)
          base
          (construction-KeepsTables base)
          construction-GatherKeeps
          initial_rels
      → All IsProper initial_rels
      → OnOk
          (λ rel. Joined base c.joins_between rel.intermediate × IsComplete base rel)
          (search_joins (view planner) c initial_rels)
  search_joins-IsComplete base initial_rels conditions columns are_base proper =
      let run = search_joins (view planner) c initial_rels in
      let Tables = λ (rel : Rel planner).
        (set_eq rel.intermediate base ≡ true) × Joined base c.joins_between rel.intermediate in
      OnOk-map (λ rel. Tables rel × IsProper rel)
        (λ rel. Joined base c.joins_between rel.intermediate × IsComplete base rel) run
        (λ rel ((e, joined), h). (joined, complete base rel e h))
        (OnOk-both Tables IsProper run
          (OnOk-Follows Tables run (standard_join_search (view planner) (quiet c) initial_rels)
            (search_joins-standard_join_search (view planner) c initial_rels)
            (standard_join_search_lem (view planner) (quiet c) base (construction-KeepsTables base)
              construction-GatherKeeps initial_rels are_base))
          (search_joins-Kept (view planner) c IsProper (construction-AreKept conditions columns)
            initial_rels proper))
