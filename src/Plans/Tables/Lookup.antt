-- ===== src/Plans/Tables/Lookup.antt =====
-- What `QueryPlan.lookup` of postbound/_qep.py finds.
use post_bound.Base.{
  true, false, ◌≡◌, refl, arith, Option, none, some, List, ◌⊎◌, inl, inr, mem, subset, set_eq,
  to_set, union, mem-union, mem_of_set_eq, subset_intro, Bool-cases, sym, ◌∙◌, subst,
}
use post_bound.Core.Table.{TableReference, table_key}
use post_bound.Plans.{QueryPlan, plan, Plans, nil, cons, Subplan, Node}
use post_bound.Plans.Tables.{
  HasTables, tables, tables_all, lookup, lookup_set, lookup_all, params_tables, tables_subplan,
}

module _ {E : Type 0} where
  -- A node of a plan outside its subplans, the plan itself included.
  unfoldable mutual
    pub Within : QueryPlan E → QueryPlan E → Type 0
    Within m (plan n cs s) = (m ≡ plan n cs s) ⊎ WithinAll m cs

    pub WithinAll : QueryPlan E → Plans E → Type 0
    WithinAll m nil = ⊥
    WithinAll m (cons c cs) = Within m c ⊎ WithinAll m cs

module _ {E : Type 0} ⦃source : HasTables E⦄ where
  mutual
    unfolding Within tables

    pub mem-tables-Within :
        (k : TableReference) (m t : QueryPlan E)
        → Within m t
        → mem k (tables m) ≡ true
        → mem k (tables t) ≡ true
    mem-tables-Within k m (plan n cs s) (inl w) h = subst (λ q. mem k (tables q) ≡ true) w h
    mem-tables-Within k m (plan n cs s) (inr w) h = ground (
      arith,
      mem-union k (union (params_tables n.params) (tables_all cs)) (tables_subplan s),
      mem-union k (params_tables n.params) (tables_all cs),
      mem-tables-WithinAll k m cs w h,
    )

    mem-tables-WithinAll :
        (k : TableReference) (m : QueryPlan E) (cs : Plans E)
        → WithinAll m cs
        → mem k (tables m) ≡ true
        → mem k (tables_all cs) ≡ true
    mem-tables-WithinAll k m nil w h = absurd w
    mem-tables-WithinAll k m (cons c cs) (inl w) h =
        ground (arith, mem-union k (tables c) (tables_all cs), mem-tables-Within k m c w h)
    mem-tables-WithinAll k m (cons c cs) (inr w) h =
        ground (arith, mem-union k (tables c) (tables_all cs), mem-tables-WithinAll k m cs w h)

  -- What a lookup may return: a node that has exactly the given tables, or nothing if there is no
  -- such node.
  abbrev pub Found : List TableReference → QueryPlan E → Option (QueryPlan E) → Type 0
  unfolding Within
  Found needle t (some m) = Within m t × (set_eq needle (tables m) ≡ true)
  Found needle t none = (m : QueryPlan E) → Within m t → set_eq needle (tables m) ≡ false

  abbrev FoundAll : List TableReference → Plans E → Option (QueryPlan E) → Type 0
  unfolding Within
  FoundAll needle cs (some m) = WithinAll m cs × (set_eq needle (tables m) ≡ true)
  FoundAll needle cs none = (m : QueryPlan E) → WithinAll m cs → set_eq needle (tables m) ≡ false

  not-Within :
      (needle : List TableReference) (m t : QueryPlan E)
      → subset needle (tables t) ≡ false
      → Within m t
      → set_eq needle (tables m) ≡ false
  not-Within needle m t outside w = elim (Bool-cases (set_eq needle (tables m))) [
    | inr other ↦ other
    | inl same_set ↦ cc (
        subset_intro needle (tables t)
          (λ k h. mem-tables-Within k m t w (sym (mem_of_set_eq k needle (tables m) same_set) ∙ h)))
  ]

  in_all :
      (needle : List TableReference) (c : QueryPlan E) (cs : Plans E)
      (here rest : Option (QueryPlan E))
      → Found needle c here
      → FoundAll needle cs rest
      → FoundAll needle (cons c cs) (elim here [ some result ↦ some result | none ↦ rest ])
  unfolding Within
  in_all needle c cs (some m) rest (w, e) g = (inl w, e)
  in_all needle c cs none (some m) h (w, e) = (inr w, e)
  in_all needle c cs none none h g = λ m w. elim w [ inl v ↦ h m v | inr v ↦ g m v ]

  beside :
      (needle : List TableReference) (n : Node E) (cs : Plans E) (s : Subplan E)
      (below : Option (QueryPlan E))
      → set_eq needle (tables (plan n cs s)) ≡ false
      → FoundAll needle cs below
      → Found needle (plan n cs s) below
  unfolding Within
  beside needle n cs s (some m) other (w, e) = (inr w, e)
  beside needle n cs s none other h = λ m w. elim w [
    | inl e ↦ subst (λ q. set_eq needle (tables q) ≡ false) (sym e) other
    | inr v ↦ h m v
  ]

  mutual
    unfolding lookup_set Within

    lookup_set_lem :
        (needle : List TableReference) (t : QueryPlan E) → Found needle t (lookup_set needle t)
    lookup_set_lem needle (plan n cs s) =
        let ts = tables (plan n cs s) in
        elim (Bool-cases (set_eq needle ts)) [
          | inl equal ↦ rw equal (inl refl, equal)
          | inr other ↦ elim (Bool-cases (subset needle ts)) [
            | inr outside ↦ rw (other, outside) (λ m w. not-Within needle m (plan n cs s) outside w)
            | inl inside ↦
                rw (other, inside)
                  (beside needle n cs s (lookup_all needle cs) other (lookup_all_lem needle cs))
          ]
        ]

    lookup_all_lem :
        (needle : List TableReference) (cs : Plans E) → FoundAll needle cs (lookup_all needle cs)
    lookup_all_lem needle nil = λ m w. absurd w
    lookup_all_lem needle (cons c cs) =
        in_all needle c cs (lookup_set needle c) (lookup_all needle cs) (lookup_set_lem needle c)
          (lookup_all_lem needle cs)

  -- QueryPlan.lookup returns a node outside of the subplans whose tables are exactly the given
  -- set, and None only if there is no such node.
  pub lookup-Found :
      (ts : List TableReference) (t : QueryPlan E) → Found (to_set ts) t (lookup ts t)
  unfolding lookup
  lookup-Found ts t = lookup_set_lem (to_set ts) t
