-- ===== src/Plans/Updates/Kept.antt =====
-- What the operations of postbound/_qep.py that replace estimates and measures keep and change.
use post_bound.Base.{
  Bool, true, false, ◌≡◌, refl, Option, none, some, List, [], ◌∷◌, ◌++◌, map, not, ◌&&◌,
  if◌then◌else◌, text_key, sym, ◌∙◌, ap, Bool-cases, inl, inr, text_eq_refl,
}
use post_bound.Core.Table.{TableReference, table_key}
use post_bound.Core.Cardinality.{Cardinality, isnan, get}
use post_bound.Plans.{
  QueryPlan, plan, Plans, nil, cons, Subplan, no_subplan, subplan, Node, node, PlanEstimates,
}
use post_bound.Plans.Traverse.{iter, iter_all, iter_subplan, plan_depth, plan_depths}
use post_bound.Plans.Tables.{HasTables, tables, tables_all, tables_subplan}
use post_bound.Plans.Updates.{
  update_nodes, update_all, update_subplan, plan_eq, plans_eq, same_table, with_card_as_cost,
  with_runtime_as_cost, card_as_cost, runtime_as_cost,
}

map-append {ℓ κ} :
    {A : Type ℓ} {B : Type κ} (f : A → B) (xs ys : List A) → map f (xs ++ ys) ≡ map f xs ++ map f ys
map-append f [] ys = refl
map-append f (x ∷ xs) ys = rw (map-append f xs ys) refl

same_table_refl : (t : Option TableReference) → same_table t t ≡ true
same_table_refl none = refl
same_table_refl (some t) = table_key.same_refl t

module _ {E : Type 0} (f : QueryPlan E → Node E) where
  mutual
    unfolding update_nodes iter

    updated_nodes : (t : QueryPlan E) → map node (iter (update_nodes f t)) ≡ map f (iter t)
    updated_nodes (plan n cs s) =
        rw
          (
            map-append node (iter_all (update_all f cs)) (iter_subplan (update_subplan f s)),
            map-append f (iter_all cs) (iter_subplan s),
            updated_all cs,
            updated_subplan s,
          )
          refl

    updated_all : (cs : Plans E) → map node (iter_all (update_all f cs)) ≡ map f (iter_all cs)
    updated_all nil = refl
    updated_all (cons c cs) =
        rw
          (
            map-append node (iter (update_nodes f c)) (iter_all (update_all f cs)),
            map-append f (iter c) (iter_all cs),
            updated_nodes c,
            updated_all cs,
          )
          refl

    updated_subplan :
        (s : Subplan E) → map node (iter_subplan (update_subplan f s)) ≡ map f (iter_subplan s)
    updated_subplan no_subplan = refl
    updated_subplan (subplan root name) = updated_nodes root

-- The new contents keep the name of the operator and the parameters.
module _ {E : Type 0} ⦃source : HasTables E⦄ (f : QueryPlan E → Node E)
    (named : (t : QueryPlan E) → (f t).node_type ≡ (node t).node_type)
    (kept : (t : QueryPlan E) → (f t).params ≡ (node t).params) where
  mutual
    unfolding update_nodes plan_eq

    eq_updated : (t : QueryPlan E) → plan_eq t (update_nodes f t) ≡ true
    eq_updated (plan n cs s) =
        rw
          (
            named (plan n cs s),
            kept (plan n cs s),
            text_eq_refl n.node_type,
            same_table_refl n.params.base_table,
          )
          (eq_updated_all cs)

    eq_updated_all : (cs : Plans E) → plans_eq cs (update_all f cs) ≡ true
    eq_updated_all nil = refl
    eq_updated_all (cons c cs) = rw (eq_updated c, eq_updated_all cs) refl

  mutual
    unfolding update_nodes plan_depth

    depth_updated : (t : QueryPlan E) → plan_depth (update_nodes f t) ≡ plan_depth t
    depth_updated (plan n cs s) = rw (depth_updated_all cs) refl

    depth_updated_all : (cs : Plans E) → plan_depths (update_all f cs) ≡ plan_depths cs
    depth_updated_all nil = refl
    depth_updated_all (cons c cs) = rw (depth_updated c, depth_updated_all cs) refl

  mutual
    unfolding update_nodes tables

    tables_updated : (t : QueryPlan E) → tables (update_nodes f t) ≡ tables t
    tables_updated (plan n cs s) =
        rw (kept (plan n cs s), tables_updated_all cs, tables_updated_subplan s) refl

    tables_updated_all : (cs : Plans E) → tables_all (update_all f cs) ≡ tables_all cs
    tables_updated_all nil = refl
    tables_updated_all (cons c cs) = rw (tables_updated c, tables_updated_all cs) refl

    tables_updated_subplan :
        (s : Subplan E) → tables_subplan (update_subplan f s) ≡ tables_subplan s
    tables_updated_subplan no_subplan = refl
    tables_updated_subplan (subplan root name) = rw (tables_updated root) refl

map-map {ℓ κ μ} :
    {A : Type ℓ} {B : Type κ} {C : Type μ} (g : B → C) (f : A → B) (xs : List A)
    → map (λ x. g (f x)) xs ≡ map g (map f xs)
map-map g f [] = refl
map-map g f (x ∷ xs) = rw (map-map g f xs) refl

-- What reads the contents of the nodes after an update reads it off the new contents.
read_updated {ℓ} :
    {E : Type 0} {B : Type ℓ} (g : Node E → B) (f : QueryPlan E → Node E) (t : QueryPlan E)
    → map (λ m. g (node m)) (iter (update_nodes f t)) ≡ map (λ m. g (f m)) (iter t)
read_updated g f t =
    map-map g node (iter (update_nodes f t))
    ∙ (ap (map g) (updated_nodes f t) ∙ sym (map-map g f (iter t)))

module _ {E : Type 0} where
  -- The cardinality that is taken over: the measured one, if it is a number of rows.
  abbrev pub best : Bool → QueryPlan E → Cardinality
  unfolding get
  best ignore_nan m =
      let actual = (node m).measures.cardinality in
      if actual.is_valid && not (ignore_nan && isnan (get actual))
      then actual
      else (node m).estimates.cardinality

module _ {E : Type 0} ⦃source : HasTables E⦄ where
  -- Equality, depth and tables of a plan do not change.
  abbrev pub Unchanged : QueryPlan E → QueryPlan E → Type 0
  Unchanged t r = (plan_eq t r ≡ true) × (plan_depth r ≡ plan_depth t) × (tables r ≡ tables t)

  unchanged :
      (f : QueryPlan E → Node E)
      → ((t : QueryPlan E) → (f t).node_type ≡ (node t).node_type)
      → ((t : QueryPlan E) → (f t).params ≡ (node t).params)
      → (t : QueryPlan E) → Unchanged t (update_nodes f t)
  unchanged f named kept t =
      (eq_updated f named kept t, depth_updated f named kept t, tables_updated f named kept t)

module _ {E : Type 0} (g : Node E → Node E) (again : (n : Node E) → g (g n) ≡ g n) where
  abbrev by_node : QueryPlan E → Node E
  by_node t = g (node t)

  mutual
    unfolding update_nodes

    twice :
        (t : QueryPlan E) → update_nodes by_node (update_nodes by_node t) ≡ update_nodes by_node t
    twice (plan n cs s) = rw (again n, twice_all cs, twice_subplan s) refl

    twice_all : (cs : Plans E) → update_all by_node (update_all by_node cs) ≡ update_all by_node cs
    twice_all nil = refl
    twice_all (cons c cs) = rw (twice c, twice_all cs) refl

    twice_subplan :
        (s : Subplan E)
        → update_subplan by_node (update_subplan by_node s) ≡ update_subplan by_node s
    twice_subplan no_subplan = refl
    twice_subplan (subplan root name) = rw (twice root) refl

card_as_cost_twice :
    (ignore_nan : Bool) (e : PlanEstimates)
    → card_as_cost ignore_nan (card_as_cost ignore_nan e) ≡ card_as_cost ignore_nan e
unfolding card_as_cost
card_as_cost_twice ignore_nan e = elim (Bool-cases (ignore_nan && isnan (get e.cardinality))) [
  | inl kept ↦ rw kept refl
  | inr taken ↦ rw taken refl
]

module _ {E : Type 0} ⦃source : HasTables E⦄ where
  -- The plan that with_card_as_cost returns is equal to the old one, as deep, and has the same
  -- tables, and doing it again changes nothing; if NaN is not ignored, the cost of each node is
  -- its estimated cardinality, and after with_runtime_as_cost it is the execution time.
  pub with_card_as_cost_lem :
      (ignore_nan : Bool) (t : QueryPlan E)
      → Unchanged t (with_card_as_cost ignore_nan t)
        × (with_card_as_cost ignore_nan (with_card_as_cost ignore_nan t)
            ≡ with_card_as_cost ignore_nan t)
        × (map (λ m. (node m).estimates.cost) (iter (with_card_as_cost false t))
            ≡ map (λ m. get (node m).estimates.cardinality) (iter t))
        × (map (λ m. (node m).estimates.cost) (iter (with_runtime_as_cost false t))
            ≡ map (λ m. (node m).measures.execution_time) (iter t))
  unfolding with_card_as_cost with_runtime_as_cost card_as_cost get
  with_card_as_cost_lem ignore_nan t =
      let g : Bool → Node E → Node E = λ b n. record n { estimates = card_as_cost b n.estimates } in
      (
        unchanged (λ m. g ignore_nan (node m)) (λ m. refl) (λ m. refl) t,
        twice (g ignore_nan)
            (λ n. ap (λ e. record n { estimates = e }) (card_as_cost_twice ignore_nan n.estimates))
            t,
        read_updated (λ n. n.estimates.cost) (λ m. g false (node m)) t,
        read_updated (λ n. n.estimates.cost)
            (λ m. record (node m) {
              estimates = runtime_as_cost false (node m).measures (node m).estimates;
            })
            t,
      )
