-- ===== src/Plans/Cout/Sums.antt =====
-- `cout` of postbound/_qep.py as a sum of numbers of rows.
use post_bound.Base.{
  Bool, true, ◌≡◌, refl, arith, Result, ok, err, ◌>>=◌, Returns, Returns-map, List, [], ◌∷◌, ◌++◌,
  All, ℕ, ◌+◌, if◌then◌else◌, ◌||◌, not, pos, pos_part, ◌∙◌, ap, Bool-cases, inl, inr,
}
use post_bound.Core.Cardinality.{
  Cardinality, whole, Operand, card, number, create, add, get, operand, add_num,
}
use post_bound.Core.Cardinality.Rows.{rows, repr, get-repr}
use post_bound.Plans.{
  QueryPlan, plan, Plans, nil, cons, Subplan, Node, node, is_auxiliary, has_measures,
}
use post_bound.Plans.Traverse.{iternodes, iternodes_all}
use post_bound.Plans.Cout.{plus, cout, cout_children}

module _ {E : Type 0} where
  -- The number of rows that a node produced.
  abbrev pub row_count : QueryPlan E → ℕ
  row_count m = pos_part (node m).measures.cardinality.raw

  -- A number of rows was measured at the node.
  abbrev pub IsCounted : QueryPlan E → Type 0
  IsCounted m = (node m).measures.cardinality ≡ repr (rows (row_count m))

  -- What a node contributes.
  abbrev pub share : Bool → QueryPlan E → ℕ
  share include_auxiliaries m =
      if include_auxiliaries || not (is_auxiliary m) then row_count m else 0

  abbrev pub total : Bool → List (QueryPlan E) → ℕ
  total include_auxiliaries [] = 0
  total include_auxiliaries (m ∷ ms) = share include_auxiliaries m + total include_auxiliaries ms

  total-append :
      (b : Bool) (ms ks : List (QueryPlan E)) → total b (ms ++ ks) ≡ total b ms + total b ks
  total-append b [] ks = omega arith
  total-append b (m ∷ ms) ks = omega (arith, total-append b ms ks)

  IsCounted-left : (ms ks : List (QueryPlan E)) → All IsCounted (ms ++ ks) → All IsCounted ms
  IsCounted-left [] ks h = tt
  IsCounted-left (m ∷ ms) ks (p, h) = (p, IsCounted-left ms ks h)

  IsCounted-right : (ms ks : List (QueryPlan E)) → All IsCounted (ms ++ ks) → All IsCounted ks
  IsCounted-right [] ks h = h
  IsCounted-right (m ∷ ms) ks (p, h) = IsCounted-right ms ks h

k_zero : (k : ℕ) → k ≡ k + 0
k_zero k = omega arith

sum_here : (k a b n : ℕ) → n ≡ a + b → k + a + b ≡ k + n
sum_here k a b n e = omega (arith, e)

create_rows :
    (a b : ℕ) → create (add_num (whole (pos a)) (whole (pos b))) ≡ ok (repr (rows (a + b)))
unfolding create
create_rows a b = ground arith

add_rows :
    (a b : ℕ) (acc : Operand)
    → operand acc ≡ whole (pos b)
    → add (repr (rows a)) acc ≡ ok (repr (rows (a + b)))
unfolding add
add_rows a b acc e = rw (get-repr (rows a), e) (create_rows a b)

plus_rows :
    (a b : ℕ) (acc : Operand)
    → operand acc ≡ whole (pos a)
    → plus acc (repr (rows b)) ≡ ok (repr (rows (a + b)))
unfolding plus add
plus_rows a b (number n) e = rw (get-repr (rows b), e) (create_rows a b)
plus_rows a b (card c) e = rw (get-repr (rows b), e) (create_rows a b)

nothing_more :
    (E : Type 0) (include_auxiliaries : Bool) (k : ℕ) (acc : Operand)
    → operand acc ≡ whole (pos k)
    → Returns
        (λ r. operand r ≡ whole (pos (k + total include_auxiliaries (iternodes_all {E = E} nil))))
        (cout_children {E = E} include_auxiliaries acc nil)
unfolding cout iternodes
nothing_more E include_auxiliaries k acc e = e ∙ ap (λ n. whole (pos n)) (k_zero k)

module _ {E : Type 0} (include_auxiliaries : Bool) where
  own_share :
      (m : QueryPlan E)
      → IsCounted m
      → (if include_auxiliaries || not (is_auxiliary m)
          then (node m).measures.cardinality
          else repr (rows 0))
        ≡ repr (rows (share include_auxiliaries m))
  own_share m h = elim (Bool-cases (include_auxiliaries || not (is_auxiliary m))) [
    | inl counts ↦ rw counts h
    | inr skipped ↦ rw skipped refl
  ]

  measured :
      (n : Node E) (k : ℕ) → n.measures.cardinality ≡ repr (rows k) → has_measures n.measures ≡ true
  unfolding has_measures get
  measured n k h = rw h refl

  cout_here :
      (n : Node E) (cs : Plans E) (s : Subplan E) (k : ℕ)
      → IsCounted (plan n cs s)
      → Returns
          (λ acc. operand acc ≡ whole (pos k))
          (cout_children include_auxiliaries (number (whole (pos 0))) cs)
      → cout include_auxiliaries (plan n cs s)
        ≡ ok (repr (rows (share include_auxiliaries (plan n cs s) + k)))
  unfolding cout
  cout_here n cs s k h below =
      rw (measured n _ h, own_share (plan n cs s) h)
        (sum_added (share include_auxiliaries (plan n cs s)) k
          (cout_children include_auxiliaries (number (whole (pos 0))) cs) below)
    where
      sum_added :
          (a b : ℕ) (r : Result Operand)
          → Returns (λ acc. operand acc ≡ whole (pos b)) r
          → (r >>= λ acc. add (repr (rows a)) acc) ≡ ok (repr (rows (a + b)))
      sum_added a b (ok acc) e = add_rows a b acc e
      sum_added a b (err x) e = absurd e

  last :
      (m : QueryPlan E) (ms : List (QueryPlan E))
      → total include_auxiliaries (ms ++ (m ∷ []))
        ≡ total include_auxiliaries ms + total include_auxiliaries (m ∷ [])
      → share include_auxiliaries m + (0 + total include_auxiliaries ms)
        ≡ total include_auxiliaries (ms ++ (m ∷ []))
  last m ms e = omega (arith, e)

  one_more :
      (k : ℕ) (acc : Operand) (c : QueryPlan E) (cs : Plans E) (x y : Cardinality)
      → cout include_auxiliaries c ≡ ok x
      → plus acc x ≡ ok y
      → Returns
          (λ r.
            operand r
            ≡ whole (
                pos (
                  k
                  + total include_auxiliaries (iternodes c)
                  + total include_auxiliaries (iternodes_all cs))))
          (cout_children include_auxiliaries (card y) cs)
      → total include_auxiliaries (iternodes c ++ iternodes_all cs)
        ≡ total include_auxiliaries (iternodes c) + total include_auxiliaries (iternodes_all cs)
      → Returns
          (λ r. operand r ≡ whole (pos (k + total include_auxiliaries (iternodes_all (cons c cs)))))
          (cout_children include_auxiliaries acc (cons c cs))
  unfolding cout iternodes
  one_more k acc c cs x y first step rest sum =
      rw (first, step)
        (Returns-map _ _ (cout_children include_auxiliaries (card y) cs)
          (λ r e. e ∙ ap (λ n. whole (pos n)) (sum_here _ _ _ _ sum)) rest)

  mutual
    unfolding iternodes

    cout-total :
        (t : QueryPlan E)
        → All IsCounted (iternodes t)
        → cout include_auxiliaries t ≡ ok (repr (rows (total include_auxiliaries (iternodes t))))
    cout-total (plan n cs s) h =
        let here : IsCounted (plan n cs s) =
          (IsCounted-right (iternodes_all cs) (plan n cs s ∷ []) h).0 in
        let below : All IsCounted (iternodes_all cs) =
          IsCounted-left (iternodes_all cs) (plan n cs s ∷ []) h in
        cout_here n cs s (0 + total include_auxiliaries (iternodes_all cs)) here
          (cout_children-total 0 (number (whole (pos 0))) cs refl below)
        ∙ ap (λ k. ok (repr (rows k)))
            (last (plan n cs s) (iternodes_all cs)
              (total-append include_auxiliaries (iternodes_all cs) (plan n cs s ∷ [])))

    cout_children-total :
        (k : ℕ) (acc : Operand) (cs : Plans E)
        → operand acc ≡ whole (pos k)
        → All IsCounted (iternodes_all cs)
        → Returns
            (λ r. operand r ≡ whole (pos (k + total include_auxiliaries (iternodes_all cs))))
            (cout_children include_auxiliaries acc cs)
    cout_children-total k acc nil e h = nothing_more E include_auxiliaries k acc e
    cout_children-total k acc (cons c cs) e h =
        let first : All IsCounted (iternodes c) =
          IsCounted-left (iternodes c) (iternodes_all cs) h in
        let rest : All IsCounted (iternodes_all cs) =
          IsCounted-right (iternodes c) (iternodes_all cs) h in
        let count = total include_auxiliaries (iternodes c) in
        one_more k acc c cs (repr (rows count)) (repr (rows (k + count))) (cout-total c first)
          (plus_rows k count acc e)
          (cout_children-total (k + count) (card (repr (rows (k + count)))) cs
            (get-repr (rows (k + count))) rest)
          (total-append include_auxiliaries (iternodes c) (iternodes_all cs))
