-- ===== src/Hints/Extract/Cardinalities.antt =====
-- The cardinalities that `parameters_from_plan` reads off a join tree.
use post_bound.Base.{
  true, false, ◌≡◌, refl, arith, Option, none, some, List, [], ◌∷◌, Result, ok, err, ◌>>=◌, Returns,
  All, All-map, Dict, get, put, merge, IsDict, merge-IsDict, get-merge, or_else, set_key, set_eq,
  mem, inl, inr, sym, ◌∙◌, subst, Distinct, to_set_self, ap, set_eq_refl, set_eq_comm, Returns-map,
  not_equal, Apart-mem,
}
use post_bound.Core.Table.{TableReference, table_key}
use post_bound.Core.Cardinality.{Cardinality}
use post_bound.Hints.Parameters.{PlanParameterization, merge_with, add_cardinality}
use post_bound.Hints.JoinTree.{JoinTree, empty, scan, join, tables}
use post_bound.Hints.JoinTree.Lookup.{Within, parts, parts-Within, mem-tables-Within}
use post_bound.Hints.JoinTree.Shape.{IsFull, tables-Distinct}
use post_bound.Hints.JoinTree.Disjoint.{
  IsDisjoint, some_table, mem-tables-join, outside_outer, outside_inner, Within-IsFull, not_outer,
  outside_part,
}
use post_bound.Hints.Extract.{known, own, parameters_from_plan}

-- The annotation of a node.
abbrev pub noted : JoinTree Cardinality → Option Cardinality
noted empty = none
noted (scan t x) = x
noted (join o i x) = x

abbrev entry : List TableReference → Option Cardinality → Dict (List TableReference) Cardinality
entry ts none = []
entry ts (some card) = (ts, card) ∷ []

-- The dictionary of cardinalities by itself.
unfoldable cards : JoinTree Cardinality → Dict (List TableReference) Cardinality
unfolding merge tables
cards empty = []
cards (scan t x) = entry (tables (scan t x)) (known x)
cards (join o i x) = merge (merge (entry (tables (join o i x)) (known x)) (cards o)) (cards i)

entry-IsDict : (ts : List TableReference) (c : Option Cardinality) → IsDict (entry ts c)
unfolding get
entry-IsDict ts none = tt
entry-IsDict ts (some card) = (refl, tt)

cards-IsDict : (t : JoinTree Cardinality) → IsDict (cards t)
unfolding cards
cards-IsDict empty = tt
cards-IsDict (scan t x) = entry-IsDict (tables (scan t x)) (known x)
cards-IsDict (join o i x) =
    merge-IsDict _ (cards i)
      (merge-IsDict _ (cards o) (entry-IsDict (tables (join o i x)) (known x)))

entry_other :
    (s ts : List TableReference) (c : Option Cardinality)
    → set_eq ts s ≡ false
    → get s (entry ts c) ≡ none
unfolding get
entry_other s ts none h = refl
entry_other s ts (some card) h = rw h refl

entry_here : (ts : List TableReference) (c : Option Cardinality) → get ts (entry ts c) ≡ c
unfolding get
entry_here ts none = refl
entry_here ts (some card) = rw (set_eq_refl ts) refl

-- The parameters of a tree say nothing of a set with a table outside the tree.
cards_outside :
    (k : TableReference) (s : List TableReference) (t : JoinTree Cardinality)
    → mem k s ≡ true
    → mem k (tables t) ≡ false
    → get s (cards t) ≡ none
unfolding cards get
cards_outside k s empty m n = refl
cards_outside k s (scan t x) m n =
    entry_other s (tables (scan t x)) (known x)
      (set_eq_comm (tables (scan t x)) s ∙ not_equal k s (tables (scan t x)) m n)
cards_outside k s (join o i x) m n =
    let all = tables (join o i x) in
    rw
      (
        get-merge s (merge (entry all (known x)) (cards o)) (cards i) (cards-IsDict i),
        get-merge s (entry all (known x)) (cards o) (cards-IsDict o),
        cards_outside k s i m (outside_inner k o i x n),
        cards_outside k s o m (outside_outer k o i x n),
      )
      (entry_other s all (known x) (set_eq_comm all s ∙ not_equal k s all m n))

-- What the three parts of the parameters of a join say of a set.
cards_join :
    (s : List TableReference) (o i : JoinTree Cardinality) (x : Option Cardinality)
    → get s (cards (join o i x))
      ≡ or_else
          (get s (cards i))
          (or_else (get s (cards o)) (get s (entry (tables (join o i x)) (known x))))
unfolding cards
cards_join s o i x =
    rw
      (
        get-merge s (merge (entry (tables (join o i x)) (known x)) (cards o)) (cards i)
            (cards-IsDict i),
        get-merge s (entry (tables (join o i x)) (known x)) (cards o) (cards-IsDict o),
      )
      refl

or_else-none : (c : Option Cardinality) → or_else c none ≡ c
or_else-none none = refl
or_else-none (some card) = refl

cards_at :
    (n t : JoinTree Cardinality)
    → Within n t
    → IsFull t
    → IsDisjoint t
    → get (tables n) (cards t) ≡ known (noted n)
unfolding cards
cards_at n empty w h d = absurd h
cards_at n (scan t x) w h d =
    subst (λ q. get (tables q) (cards (scan t x)) ≡ known (noted q)) (sym w)
      (entry_here (tables (scan t x)) (known x))
cards_at n (join o i x) (inl w) (ho, hi) (a, d, e) =
    let (k, m) = some_table o ho in
    let (j, l) = some_table i hi in
    let root = join o i x in
    let k_in : mem k (tables root) ≡ true = ground (arith, mem-tables-join k o i x) in
    let j_in : mem j (tables root) ≡ true = ground (arith, mem-tables-join j o i x) in
    subst (λ q. get (tables q) (cards root) ≡ known (noted q)) (sym w)
      (cards_join (tables root) o i x
        ∙ rw
            (
              cards_outside k (tables root) i k_in (Apart-mem k (tables i) (tables o) a m),
              cards_outside j (tables root) o j_in (not_outer j o i a l),
            )
            (entry_here (tables root) (known x)))
cards_at n (join o i x) (inr (inl w)) (ho, hi) (a, d, e) =
    let (k, m) = some_table n (Within-IsFull n o w ho) in
    let (j, l) = some_table i hi in
    let root = join o i x in
    let j_in : mem j (tables root) ≡ true = ground (arith, mem-tables-join j o i x) in
    let j_out : mem j (tables n) ≡ false = outside_part j n o w (not_outer j o i a l) in
    cards_join (tables n) o i x
    ∙ rw
        (
          cards_outside k (tables n) i m
              (Apart-mem k (tables i) (tables o) a (mem-tables-Within k n o w m)),
          entry_other (tables n) (tables root) (known x)
              (not_equal j (tables root) (tables n) j_in j_out),
          cards_at n o w ho d,
        )
        (or_else-none (known (noted n)))
cards_at n (join o i x) (inr (inr w)) (ho, hi) (a, d, e) =
    let (k, m) = some_table n (Within-IsFull n i w hi) in
    let (j, l) = some_table o ho in
    let root = join o i x in
    let j_in : mem j (tables root) ≡ true = ground (arith, mem-tables-join j o i x) in
    let j_out : mem j (tables n) ≡ false =
      outside_part j n i w (Apart-mem j (tables i) (tables o) a l) in
    cards_join (tables n) o i x
    ∙ rw
        (
          cards_outside k (tables n) o m (not_outer k o i a (mem-tables-Within k n i w m)),
          entry_other (tables n) (tables root) (known x)
              (not_equal j (tables root) (tables n) j_in j_out),
          cards_at n i w hi e,
        )
        (or_else-none (known (noted n)))

module _ (Value : Type 0) where
  own-cards :
      (ts : List TableReference) (c : Option Cardinality)
      → Distinct ts
      → (own {Value = Value} ts c).cardinalities ≡ entry ts c
  unfolding add_cardinality put
  own-cards ts none d = refl
  own-cards ts (some card) d = rw (to_set_self ts d) refl

  -- `parameters_from_plan` returns the dictionary `cards`, for a tree without empty parts.
  parameters-cards :
      (t : JoinTree Cardinality)
      → IsFull t
      → Returns
          (λ (p : PlanParameterization Value). p.cardinalities ≡ cards t)
          (parameters_from_plan {Value = Value} t)
  unfolding parameters_from_plan cards merge_with
  parameters-cards empty h = absurd h
  parameters-cards (scan t x) h =
      own-cards (tables (scan t x)) (known x) (tables-Distinct (scan t x))
  parameters-cards (join o i x) (ho, hi) =
      both (parameters_from_plan o) (parameters_from_plan i) (parameters-cards o ho)
        (parameters-cards i hi)
    where
      both :
          (p q : Result (PlanParameterization Value))
          → Returns (λ r. r.cardinalities ≡ cards o) p
          → Returns (λ r. r.cardinalities ≡ cards i) q
          → Returns
              (λ r. r.cardinalities ≡ cards (join o i x))
              (p >>= λ a.
                q >>= λ b. ok (merge_with (merge_with (own (tables (join o i x)) (known x)) a) b))
      both (ok p) (ok q) e f =
          rw (e, f, own-cards (tables (join o i x)) (known x) (tables-Distinct (join o i x))) refl
      both (ok p) (err q) e f = f
      both (err p) q e f = e

  -- For a logical join tree without empty parts in which no table stands on both sides of a join,
  -- parameters_from_plan returns, and has for each part of the tree the cardinality with which the
  -- part is annotated at its set of tables, and none if there is no annotation or that is NaN.
  pub parameters_from_plan_lem :
      (t : JoinTree Cardinality)
      → IsFull t
      → IsDisjoint t
      → Returns
          (λ (p : PlanParameterization Value).
            All (λ n. get (tables n) p.cardinalities ≡ known (noted n)) (parts t))
          (parameters_from_plan t)
  parameters_from_plan_lem t h d =
      Returns-map _ _ (parameters_from_plan t)
        (λ p e.
          All-map _ _ (parts t) (λ n w. ap (get (tables n)) e ∙ cards_at n t w h d)
            (parts-Within t))
        (parameters-cards t h)
