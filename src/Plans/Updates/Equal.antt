-- ===== src/Plans/Updates/Equal.antt =====
-- The equality of query plans of postbound/_qep.py.
use post_bound.Base.{true, ◌≡◌, refl, arith, Option, none, some, text_key, text_eq_refl}
use post_bound.Core.Table.{TableReference, table_key}
use post_bound.Plans.{QueryPlan, plan, Plans, nil, cons}
use post_bound.Plans.Traverse.{plan_depth, plan_depths}
use post_bound.Plans.Updates.{plan_eq, plans_eq, same_table}

pub same_table_refl : (t : Option TableReference) → same_table t t ≡ true
same_table_refl none = refl
same_table_refl (some t) = table_key.same_refl t

same_table-sym : (t u : Option TableReference) → same_table t u ≡ true → same_table u t ≡ true
same_table-sym none none h = refl
same_table-sym (some t) (some u) h = table_key.same_sym t u h
same_table-sym _ _ h = cc

same_table_trans :
    (r t u : Option TableReference)
    → same_table r t ≡ true
    → same_table t u ≡ true
    → same_table r u ≡ true
same_table_trans none none none g h = refl
same_table_trans (some r) (some t) (some u) g h = table_key.same_trans r t u g h
same_table_trans _ _ _ g h = cc

module _ {E : Type 0} where
  mutual
    unfolding plan_eq

    pub plan_eq_refl : (t : QueryPlan E) → plan_eq t t ≡ true
    plan_eq_refl (plan n cs s) =
        rw (text_eq_refl n.node_type, same_table_refl n.params.base_table) (plans_eq_refl cs)

    plans_eq_refl : (cs : Plans E) → plans_eq cs cs ≡ true
    plans_eq_refl nil = refl
    plans_eq_refl (cons c cs) = rw (plan_eq_refl c, plans_eq_refl cs) refl

  mutual
    unfolding plan_eq

    plan_eq-sym : (t u : QueryPlan E) → plan_eq t u ≡ true → plan_eq u t ≡ true
    plan_eq-sym (plan n cs s) (plan m ds r) h = ground (
      arith,
      text_key.same_sym n.node_type m.node_type,
      same_table-sym n.params.base_table m.params.base_table,
      plans_eq-sym cs ds,
    )

    plans_eq-sym : (cs ds : Plans E) → plans_eq cs ds ≡ true → plans_eq ds cs ≡ true
    plans_eq-sym nil nil h = refl
    plans_eq-sym (cons c cs) (cons d ds) h = ground (arith, plan_eq-sym c d, plans_eq-sym cs ds)
    plans_eq-sym nil (cons d ds) h = cc
    plans_eq-sym (cons c cs) nil h = cc

  mutual
    unfolding plan_eq

    plan_eq_trans :
        (t u v : QueryPlan E) → plan_eq t u ≡ true → plan_eq u v ≡ true → plan_eq t v ≡ true
    plan_eq_trans (plan n cs s) (plan m ds r) (plan k es q) g h = ground (
      arith,
      text_key.same_trans n.node_type m.node_type k.node_type,
      same_table_trans n.params.base_table m.params.base_table k.params.base_table,
      plans_eq_trans cs ds es,
    )

    plans_eq_trans :
        (cs ds es : Plans E) → plans_eq cs ds ≡ true → plans_eq ds es ≡ true → plans_eq cs es ≡ true
    plans_eq_trans nil nil nil g h = refl
    plans_eq_trans (cons c cs) (cons d ds) (cons e es) g h =
        ground (arith, plan_eq_trans c d e, plans_eq_trans cs ds es)
    plans_eq_trans nil nil (cons e es) g h = cc
    plans_eq_trans nil (cons d ds) es g h = cc
    plans_eq_trans (cons c cs) nil es g h = cc
    plans_eq_trans (cons c cs) (cons d ds) nil g h = cc

  mutual
    unfolding plan_eq plan_depth

    depth-plan_eq : (t u : QueryPlan E) → plan_eq t u ≡ true → plan_depth t ≡ plan_depth u
    depth-plan_eq (plan n cs s) (plan m ds r) h = ground (arith, depths-plans_eq cs ds)

    depths-plans_eq : (cs ds : Plans E) → plans_eq cs ds ≡ true → plan_depths cs ≡ plan_depths ds
    depths-plans_eq nil nil h = refl
    depths-plans_eq (cons c cs) (cons d ds) h =
        ground (arith, depth-plan_eq c d, depths-plans_eq cs ds)
    depths-plans_eq nil (cons d ds) h = cc
    depths-plans_eq (cons c cs) nil h = cc

  -- Equality of plans is reflexive, symmetric and transitive, and equal plans are equally deep.
  pub plan_eq_lem :
      (t u v : QueryPlan E)
      → plan_eq t u ≡ true
      → plan_eq u v ≡ true
      → (plan_eq t t ≡ true)
        × (plan_eq u t ≡ true)
        × (plan_eq t v ≡ true)
        × (plan_depth t ≡ plan_depth v)
  plan_eq_lem t u v g h =
      let far : plan_eq t v ≡ true = plan_eq_trans t u v g h in
      (plan_eq_refl t, plan_eq-sym t u g, far, depth-plan_eq t v far)
