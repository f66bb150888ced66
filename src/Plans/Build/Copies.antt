-- ===== src/Plans/Build/Copies.antt =====
-- Building a plan of postbound/_qep.py again from its own fields, and its shallow copy.
use post_bound.Base.{
  true, false, ◌≡◌, refl, Option, none, some, Result, ok, is_blank, Returns, Returns-bind, ◌>>=◌,
  if◌then◌else◌, Bool-cases, inl, inr, subst, sym,
}
use post_bound.Core.Cardinality.{get}
use post_bound.Plans.{
  QueryPlan, plan, Plans, Subplan, no_subplan, subplan, Node, PlanMeasures, has_measures, node,
  children, is_analyze,
}
use post_bound.Plans.Updates.{no_measures, plan_eq}
use post_bound.Plans.Updates.Equal.{plan_eq_refl}
use post_bound.Plans.Build.{
  init, init_params, init_estimates, init_measures, cardinality_of, name, from_containers,
  some_measures, clone, clone_subplan,
}

-- The measures of a plan that is built with them, or without any.
abbrev pub measures_of : Option PlanMeasures → PlanMeasures
measures_of none = no_measures
measures_of (some m) = m

no_measures_lem : has_measures no_measures ≡ false
unfolding has_measures get
no_measures_lem = refl

some_measures_lem :
    (m : PlanMeasures) → some_measures m ≡ ok (if has_measures m then some m else none)
unfolding init_measures cardinality_of
some_measures_lem m = elim (Bool-cases (has_measures m)) [
  | inl known ↦ rw known refl
  | inr unknown ↦ rw unknown refl
]

kept_measured :
    (m : PlanMeasures)
    → has_measures (measures_of (if has_measures m then some m else none)) ≡ has_measures m
kept_measured m = elim (Bool-cases (has_measures m)) [
  | inl known ↦ rw known known
  | inr unknown ↦ rw unknown no_measures_lem
]

kept_measures :
    (m : PlanMeasures)
    → has_measures m ≡ true
    → measures_of (if has_measures m then some m else none) ≡ m
kept_measures m known = rw known refl

module _ {E : Type 0} where
  built :
      (n : Node E) (cs : Plans E) (measures : Option PlanMeasures) (s : Subplan E)
      → is_blank n.node_type ≡ false
      → init (from_containers (name n.node_type) n.operator cs n.params n.estimates measures s)
        ≡ ok (plan (record n { measures = measures_of measures }) cs s)
  unfolding init get init_measures cardinality_of
  built n cs none no_subplan h = rw h refl
  built n cs none (subplan root target_name) h = rw h refl
  built n cs (some m) no_subplan h = rw h refl
  built n cs (some m) (subplan root target_name) h = rw h refl

  -- x
  pub init_lem :
      (n : Node E) (cs : Plans E) (measures : Option PlanMeasures) (s : Subplan E)
      → is_blank n.node_type ≡ false
      → init (from_containers (name n.node_type) n.operator cs n.params n.estimates measures s)
        ≡ ok (plan (record n { measures = measures_of measures }) cs s)
  init_lem = built

  -- The plan, and the plans that are its subplan, the subplan of that, and so on, have a name.
  unfoldable mutual
    pub IsNamed : QueryPlan E → Type 0
    IsNamed (plan n cs s) = (is_blank n.node_type ≡ false) × IsNamedSubplan s

    pub IsNamedSubplan : Subplan E → Type 0
    IsNamedSubplan no_subplan = Unit
    IsNamedSubplan (subplan root target_name) = IsNamed root

  -- What a copy keeps; measures without a measurement become the default ones.
  abbrev pub CopyOf : QueryPlan E → QueryPlan E → Type 0
  CopyOf t r =
      (plan_eq t r ≡ true)
      × (children r ≡ children t)
      × ((node r).params ≡ (node t).params)
      × ((node r).estimates ≡ (node t).estimates)
      × (is_analyze r ≡ is_analyze t)
      × (is_analyze t ≡ true → (node r).measures ≡ (node t).measures)

  like_itself :
      (n : Node E) (m : PlanMeasures) (cs : Plans E) (s u : Subplan E)
      → plan_eq (plan n cs s) (plan (record n { measures = m }) cs u) ≡ true
  unfolding plan_eq
  like_itself n m cs s u = plan_eq_refl (plan n cs s)

  copy_of :
      (n : Node E) (cs : Plans E) (s u : Subplan E)
      → is_blank n.node_type ≡ false
      → Returns (CopyOf (plan n cs s)) (
          init (
            from_containers
              (name n.node_type)
              n.operator
              cs
              n.params
              n.estimates
              (if has_measures n.measures then some n.measures else none)
              u))
  unfolding is_analyze
  copy_of n cs s u h =
      let kept = if has_measures n.measures then some n.measures else none in
      subst (Returns (CopyOf (plan n cs s))) (sym (built n cs kept u h)) (
        like_itself n (measures_of kept) cs s u,
        refl,
        refl,
        refl,
        kept_measured n.measures,
        kept_measures n.measures,
      )

  with_measures :
      (n : Node E) (cs : Plans E) (s : Subplan E)
      → is_blank n.node_type ≡ false
      → (r : Result (Subplan E)) → Returns (λ u. Unit {0}) r
      → Returns (CopyOf (plan n cs s)) (
          some_measures n.measures >>= λ measures. r >>= λ sub.
          init (from_containers (name n.node_type) n.operator cs n.params n.estimates measures sub))
  with_measures n cs s h r ready =
      rw (some_measures_lem n.measures)
        (Returns-bind (λ u. Unit {0}) (CopyOf (plan n cs s)) r _ ready (λ u g. copy_of n cs s u h))

  mutual
    unfolding clone IsNamed init_estimates init_measures cardinality_of init_params

    copied : (t : QueryPlan E) → IsNamed t → Returns (CopyOf t) (clone t)
    copied (plan n cs s) (h, hs) = with_measures n cs s h (clone_subplan s) (copied_subplan s hs)

    copied_subplan : (s : Subplan E) → IsNamedSubplan s → Returns (λ u. Unit {0}) (clone_subplan s)
    copied_subplan no_subplan h = tt
    copied_subplan (subplan root target_name) h =
        Returns-bind (CopyOf root) _ (clone root) _ (copied root h) (λ r c. tt)
