-- ===== src/Hints/JoinTree/Lookup.antt =====
-- `JoinTree.lookup` of postbound/_hints.py.
use post_bound.Base.{
  true, false, ◌≡◌, refl, arith, Result, ok, err, Option, none, some, List, [], ◌∷◌, ◌⊎◌, inl, inr,
  Returns, Returns-map, ◌>>=◌, mem, subset, set_eq, subset_intro, mem-union, Bool-cases, sym, ◌∙◌,
  subst, mem_of_set_eq, to_set, set_key, All, Any, All-map, All-append, Any-append_left,
  Any-append_right, ◌++◌,
}
use post_bound.Core.Table.{TableReference, table_key}
use post_bound.Hints.JoinTree.{JoinTree, empty, scan, join, tables, lookup_set, lookup}

subset_nil-false :
    (needle : List TableReference) → set_eq needle [] ≡ false → subset needle [] ≡ false
unfolding set_eq
subset_nil-false needle h = ground arith

module _ {A : Type 0} where
  -- A node of a tree, the tree itself included.
  abbrev pub Within : JoinTree A → JoinTree A → Type 0
  Within n empty = n ≡ empty
  Within n (scan t x) = n ≡ scan t x
  Within n (join o i x) = (n ≡ join o i x) ⊎ Within n o ⊎ Within n i

  -- What a lookup may return: a node that scans exactly the given tables, or nothing if there is no
  -- such node.
  abbrev pub Found : List TableReference → JoinTree A → Option (JoinTree A) → Type 0
  Found needle t (some n) = Within n t × (set_eq needle (tables n) ≡ true)
  Found needle t none = (n : JoinTree A) → Within n t → set_eq needle (tables n) ≡ false

  pub mem-tables-Within :
      (k : TableReference) (n t : JoinTree A)
      → Within n t
      → mem k (tables n) ≡ true
      → mem k (tables t) ≡ true
  unfolding tables
  mem-tables-Within k n empty w m = subst (λ q. mem k (tables q) ≡ true) w m
  mem-tables-Within k n (scan t x) w m = subst (λ q. mem k (tables q) ≡ true) w m
  mem-tables-Within k n (join o i x) (inl w) m = subst (λ q. mem k (tables q) ≡ true) w m
  mem-tables-Within k n (join o i x) (inr (inl w)) m =
      ground (arith, mem-union k (tables o) (tables i), mem-tables-Within k n o w m)
  mem-tables-Within k n (join o i x) (inr (inr w)) m =
      ground (arith, mem-union k (tables o) (tables i), mem-tables-Within k n i w m)

  -- A node that scans tables outside the tree is not in it.
  not-Within :
      (needle : List TableReference) (n t : JoinTree A)
      → subset needle (tables t) ≡ false
      → Within n t
      → set_eq needle (tables n) ≡ false
  not-Within needle n t outside w = elim (Bool-cases (set_eq needle (tables n))) [
    | inr other ↦ other
    | inl same_set ↦ cc (
        subset_intro needle (tables t)
          (λ k m. mem-tables-Within k n t w (sym (mem_of_set_eq k needle (tables n) same_set) ∙ m)))
  ]

  in_join :
      (needle : List TableReference) (o i : JoinTree A) (x : Option A)
      (in_o in_i : Result (Option (JoinTree A)))
      → set_eq needle (tables (join o i x)) ≡ false
      → Returns (Found needle o) in_o
      → Returns (Found needle i) in_i
      → Returns
          (Found needle (join o i x))
          (in_o >>= λ result. elim result [ some node ↦ ok (some node) | none ↦ in_i ])
  in_join needle o i x (ok (some n)) in_i other (w, e) g = (inr (inl w), e)
  in_join needle o i x (ok none) (ok (some n)) other h (w, e) = (inr (inr w), e)
  in_join needle o i x (ok none) (ok none) other h g = absent
    where
      absent : Found needle (join o i x) none
      absent n (inl e) = subst (λ q. set_eq needle (tables q) ≡ false) (sym e) other
      absent n (inr (inl w)) = h n w
      absent n (inr (inr w)) = g n w
  in_join needle o i x (ok none) (err e) other h g = g
  in_join needle o i x (err e) in_i other h g = h

  lookup_set_lem :
      (needle : List TableReference) (t : JoinTree A)
      → Returns (Found needle t) (lookup_set needle t)
  unfolding lookup_set tables
  lookup_set_lem needle empty = elim (Bool-cases (set_eq needle [])) [
    | inl here ↦ rw here (refl, here)
    | inr other ↦
        rw (other, subset_nil-false needle other)
          (λ n w. subst (λ q. set_eq needle (tables q) ≡ false) (sym w) other)
  ]
  lookup_set_lem needle (scan t x) = elim (Bool-cases (set_eq needle (t ∷ []))) [
    | inl here ↦ rw here (refl, here)
    | inr other ↦ elim (Bool-cases (subset needle (t ∷ []))) [
      | inl inside ↦
          rw (other, inside) (λ n w. subst (λ q. set_eq needle (tables q) ≡ false) (sym w) other)
      | inr outside ↦
          rw (other, outside) (λ n w. subst (λ q. set_eq needle (tables q) ≡ false) (sym w) other)
    ]
  ]
  lookup_set_lem needle (join o i x) = elim (Bool-cases (set_eq needle (tables (join o i x)))) [
    | inl here ↦ rw here (inl refl, here)
    | inr other ↦ elim (Bool-cases (subset needle (tables (join o i x)))) [
      | inl inside ↦
          rw (other, inside)
            (in_join needle o i x (lookup_set needle o) (lookup_set needle i) other
              (lookup_set_lem needle o) (lookup_set_lem needle i))
      | inr outside ↦ rw (other, outside) (λ n w. not-Within needle n (join o i x) outside w)
    ]
  ]

  -- The tree and all parts of it, also the empty ones.
  abbrev pub parts : JoinTree A → List (JoinTree A)
  parts (join o i x) = join o i x ∷ (parts o ++ parts i)
  parts t = t ∷ []

  pub parts-Within : (t : JoinTree A) → All (λ n. Within n t) (parts t)
  parts-Within empty = (refl, tt)
  parts-Within (scan t x) = (refl, tt)
  parts-Within (join o i x) = (
    inl refl,
    All-append _ (parts o) (parts i) (All-map _ _ (parts o) (λ n h. inr (inl h)) (parts-Within o))
        (All-map _ _ (parts i) (λ n h. inr (inr h)) (parts-Within i)),
  )

  Within-parts : (n t : JoinTree A) → Within n t → Any (λ m. m ≡ n) (parts t)
  Within-parts n empty w = inl (sym w)
  Within-parts n (scan t x) w = inl (sym w)
  Within-parts n (join o i x) (inl w) = inl (sym w)
  Within-parts n (join o i x) (inr (inl w)) =
      inr (Any-append_left _ (parts o) (parts i) (Within-parts n o w))
  Within-parts n (join o i x) (inr (inr w)) =
      inr (Any-append_right _ (parts o) (parts i) (Within-parts n i w))

  -- A part of the tree that scans exactly the tables `needle`; or nothing, if no part does.
  abbrev pub Answer : List TableReference → JoinTree A → Option (JoinTree A) → Type 0
  Answer needle t (some n) = Any (λ m. m ≡ n) (parts t) × (set_eq needle (tables n) ≡ true)
  Answer needle t none = All (λ n. set_eq needle (tables n) ≡ false) (parts t)

  Found-Answer :
      (needle : List TableReference) (t : JoinTree A) (r : Option (JoinTree A))
      → Found needle t r
      → Answer needle t r
  Found-Answer needle t none h = All-map _ _ (parts t) h (parts-Within t)
  Found-Answer needle t (some n) (w, e) = (Within-parts n t w, e)

  -- JoinTree.lookup never raises, also in trees with empty parts; it returns a part of the tree
  -- that scans exactly the given set of tables, and None only if no part does.
  pub lookup_lem :
      (needle : List TableReference) (t : JoinTree A)
      → Returns (Answer (to_set needle) t) (lookup needle t)
  unfolding lookup
  lookup_lem needle t =
      Returns-map _ _ (lookup_set (to_set needle) t) (Found-Answer (to_set needle) t)
        (lookup_set_lem (to_set needle) t)
