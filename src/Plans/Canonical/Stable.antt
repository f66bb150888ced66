-- ===== src/Plans/Canonical/Stable.antt =====
-- What `canonical` of postbound/_qep.py returns: the core of a plan, with the same join tree.
use post_bound.Base.{
  Bool, true, false, ◌≡◌, refl, arith, ok, OnOk, OnOk-bind, OnOk-map, ◌&&◌, if◌then◌else◌,
  Bool-cases, inl, inr,
}
use post_bound.Core.Cardinality.{Cardinality}
use post_bound.Plans.{
  QueryPlan, plan, Plans, nil, cons, Subplan, no_subplan, subplan, joins, scans, Node,
}
use post_bound.Plans.Canonical.{canonical, canonical_input, canonical_all, canonical_subplan}
use post_bound.Plans.Extract.{
  CardSource, card_of, jointree_from_plan, jointree_input, jointree_both,
}

module _ {E : Type 0} where
  abbrev leaf : Plans E → Bool
  leaf nil = true
  leaf (cons c cs) = false

  -- Each node of a plan and of its subplans is a join or a scan without inputs.
  unfoldable mutual
    pub core : QueryPlan E → Bool
    core (plan n cs s) =
        let below = core_all cs in
        core_subplan s && (if scans n.operator then leaf cs else joins n.operator && below)

    pub core_all : Plans E → Bool
    core_all nil = true
    core_all (cons c cs) = core c && core_all cs

    pub core_subplan : Subplan E → Bool
    core_subplan no_subplan = true
    core_subplan (subplan root name) = core root

  mutual
    unfolding core canonical

    canonical-core : (t : QueryPlan E) → core t ≡ true → canonical t ≡ ok t
    canonical-core (plan n nil s) h = elim (Bool-cases (scans n.operator)) [
      | inl scan ↦ rw (scan, canonical_subplan-core s (ground arith)) refl
      | inr other ↦
          let join : joins n.operator ≡ true = ground arith in
          rw (other, join, canonical_subplan-core s (ground arith)) refl
    ]
    canonical-core (plan n (cons c cs) s) h = elim (Bool-cases (scans n.operator)) [
      | inl scan ↦ absurd (ground arith)
      | inr other ↦
          let join : joins n.operator ≡ true = ground arith in
          rw
            (
              other,
              join,
              canonical_subplan-core s (ground arith),
              canonical-core c (ground arith),
              canonical_all-core cs (ground arith),
            )
            refl
    ]

    canonical_all-core : (cs : Plans E) → core_all cs ≡ true → canonical_all cs ≡ ok cs
    canonical_all-core nil h = refl
    canonical_all-core (cons c cs) h =
        rw (canonical-core c (ground arith), canonical_all-core cs (ground arith)) refl

    canonical_subplan-core : (s : Subplan E) → core_subplan s ≡ true → canonical_subplan s ≡ ok s
    canonical_subplan-core no_subplan h = refl
    canonical_subplan-core (subplan root name) h = rw (canonical-core root h) refl

  -- The same join tree is read off both plans.
  abbrev Alike : QueryPlan E → QueryPlan E → Type 0
  Alike t u = (source : CardSource) → jointree_from_plan source t ≡ jointree_from_plan source u

  abbrev AllAlike : Plans E → Plans E → Type 0
  AllAlike nil nil = Unit
  AllAlike (cons c cs) (cons d ds) = Alike c d × AllAlike cs ds
  AllAlike _ _ = ⊥

  both_alike :
      (source : CardSource) (card : Cardinality) (cs ds : Plans E)
      → AllAlike cs ds
      → jointree_both source card cs ≡ jointree_both source card ds
  unfolding jointree_from_plan
  both_alike source card nil nil h = refl
  both_alike source card (cons c nil) (cons d nil) h = refl
  both_alike source card (cons o (cons i nil)) (cons p (cons j nil)) (e, (f, g)) =
      rw (e source, f source) refl
  both_alike source card (cons a (cons b (cons c cs))) (cons d (cons e (cons f ds))) h = refl
  both_alike source card nil (cons d ds) h = absurd h
  both_alike source card (cons c cs) nil h = absurd h
  both_alike source card (cons c nil) (cons d (cons e ds)) h = absurd (h.1)
  both_alike source card (cons c (cons b cs)) (cons d nil) h = absurd (h.1)
  both_alike source card (cons a (cons b nil)) (cons d (cons e (cons f ds))) h = absurd (h.1.1)
  both_alike source card (cons a (cons b (cons c cs))) (cons d (cons e nil)) h = absurd (h.1.1)

  abbrev Good : QueryPlan E → QueryPlan E → Type 0
  Good t c = (core c ≡ true) × Alike c t

  abbrev GoodInput : Plans E → QueryPlan E → Type 0
  GoodInput cs c =
      (core c ≡ true)
      × ((source : CardSource) → jointree_from_plan source c ≡ jointree_input source cs)

  abbrev AllGood : Plans E → Plans E → Type 0
  AllGood cs ds = (core_all ds ≡ true) × AllAlike ds cs

  scan-Good :
      (n : Node E) (cs : Plans E) (s u : Subplan E)
      → scans n.operator ≡ true
      → core_subplan u ≡ true
      → Good (plan n cs s) (plan n nil u)
  unfolding core jointree_from_plan
  scan-Good n cs s u scan core_u = (rw (core_u, scan) refl, λ source. rw scan refl)

  join-Good :
      (n : Node E) (cs ds : Plans E) (s u : Subplan E)
      → scans n.operator ≡ false
      → joins n.operator ≡ true
      → core_subplan u ≡ true
      → AllGood cs ds
      → Good (plan n cs s) (plan n ds u)
  unfolding core jointree_from_plan
  join-Good n cs ds s u other join core_u (core_ds, e) = (
    rw (core_u, other, join, core_ds) refl,
    λ source. rw (other, join) (both_alike source (card_of source n) ds cs e),
  )

  auxiliary-Good :
      (n : Node E) (cs : Plans E) (s : Subplan E) (c : QueryPlan E)
      → scans n.operator ≡ false
      → joins n.operator ≡ false
      → GoodInput cs c
      → Good (plan n cs s) c
  unfolding jointree_from_plan
  auxiliary-Good n cs s c other auxiliary (core_c, e) =
      (core_c, λ source. rw (other, auxiliary) (e source))

  mutual
    unfolding core canonical jointree_from_plan

    canonical-Good : (t : QueryPlan E) → OnOk (Good t) (canonical t)
    canonical-Good (plan n cs s) =
        OnOk-bind (λ u. core_subplan u ≡ true) (Good (plan n cs s)) (canonical_subplan s) _
          (subplan_of-core s)
          (λ u core_u. elim (Bool-cases (scans n.operator)) [
            | inl scan ↦ rw scan (scan-Good n cs s u scan core_u)
            | inr other ↦ elim (Bool-cases (joins n.operator)) [
              | inr auxiliary ↦
                  rw (other, auxiliary)
                    (OnOk-map _ _ (canonical_input cs)
                      (λ c good. auxiliary-Good n cs s c other auxiliary good)
                      (canonical_input-GoodInput cs))
              | inl join ↦
                  rw (other, join)
                    (OnOk-bind (AllGood cs) (Good (plan n cs s)) (canonical_all cs) _
                      (canonical_all-AllGood cs)
                      (λ ds good. join-Good n cs ds s u other join core_u good))
            ]
          ])

    canonical_input-GoodInput : (cs : Plans E) → OnOk (GoodInput cs) (canonical_input cs)
    canonical_input-GoodInput nil = tt
    canonical_input-GoodInput (cons c nil) = canonical-Good c
    canonical_input-GoodInput (cons a (cons b cs)) = tt

    canonical_all-AllGood : (cs : Plans E) → OnOk (AllGood cs) (canonical_all cs)
    canonical_all-AllGood nil = (refl, tt)
    canonical_all-AllGood (cons c cs) =
        OnOk-bind (Good c) (AllGood (cons c cs)) (canonical c) _ (canonical-Good c)
          (λ d (core_d, e).
            OnOk-bind (AllGood cs) (AllGood (cons c cs)) (canonical_all cs) _
              (canonical_all-AllGood cs) (λ ds (core_ds, f). (rw (core_d, core_ds) refl, (e, f))))

    subplan_of-core : (s : Subplan E) → OnOk (λ u. core_subplan u ≡ true) (canonical_subplan s)
    subplan_of-core no_subplan = refl
    subplan_of-core (subplan root name) =
        OnOk-bind (Good root) (λ u. core_subplan u ≡ true) (canonical root) _ (canonical-Good root)
          (λ c (core_c, e). core_c)

  -- Where canonical returns, the result consists of joins, and of scans without inputs, also in
  -- its subplans; its canonical form is the plan itself; and jointree_from_plan does the same on
  -- it as on the original plan.
  pub canonical_lem :
      (t : QueryPlan E)
      → OnOk
          (λ c.
            (core c ≡ true)
            × (canonical c ≡ ok c)
            × ((source : CardSource) → jointree_from_plan source c ≡ jointree_from_plan source t))
          (canonical t)
  canonical_lem t =
      OnOk-map _ _ (canonical t) (λ c (core_c, e). (core_c, canonical-core c core_c, e))
        (canonical-Good t)
