-- ===== src/Hints/Assignment/Workers.antt =====
-- `integrate_workers_from`: the loop over the worker hints of a parameterization.
use post_bound.Base.{
  true, false, ◌≡◌, refl, ok, Option, none, some, List, [], ◌∷◌, Dict, IsDict, get, get-same,
  set_key, Key, Distinct, Entries, get-Entries, if◌then◌else◌, set_eq, Bool-cases, Option-cases,
  inl, inr, ℤ, Returns, Returns-map, sym, ◌∙◌, subst, set_eq_one, same_left,
}
use post_bound.Core.Table.{TableReference, table_key}
use post_bound.Core.Cardinality.{whole}
use post_bound.Hints.Operators.{
  ScanOperatorAssignment, JoinOperatorAssignment, IsJoin, rebuild_join, rebuild_directional, Sides,
}
use post_bound.Hints.Assignment.{
  PhysicalOperatorAssignment, Addition, scan, join, add, set_scan_assignment, set_join_assignment,
}
use post_bound.Hints.Assignment.Queries.{
  Assigned, scan_assigned, join_assigned, get_set, integrate, with_workers, rebuild, as_scan,
  as_join,
}
use post_bound.Hints.Assignment.Consistent.{
  IsConsistent, ScanAt, JoinAt, ScanAt-stable, JoinAt-stable, set_scan_assignment-IsConsistent,
  set_join_assignment-IsConsistent,
}
use post_bound.Hints.Assignment.Lookups.{get_set-same, get_set-set_scan, get_set-set_join}

-- The same operator with a number of workers.
abbrev pub staffed : ℤ → Assigned → Assigned
staffed w (scan_assigned s) = scan_assigned (record s { parallel_workers = whole w })
staffed w (join_assigned j) = join_assigned (record j { parallel_workers = whole w })

abbrev pub as_addition : Assigned → Addition
as_addition (scan_assigned s) = scan s
as_addition (join_assigned j) = join j

-- An operator with the workers of a hint, if both are there.
abbrev pub hinted : Option ℤ → Option Assigned → Option Assigned
hinted none o = o
hinted (some w) none = none
hinted (some w) (some o) = some (staffed w o)

abbrev pub IsAssigned : Assigned → Type 0
IsAssigned (scan_assigned s) = Unit
IsAssigned (join_assigned j) = IsJoin j

-- The set of tables at which an operator stands.
abbrev pub place : Assigned → List TableReference
place (scan_assigned s) = s.table ∷ []
place (join_assigned j) = j.join

abbrev pub stored : Assigned → PhysicalOperatorAssignment → PhysicalOperatorAssignment
stored (scan_assigned s) a = set_scan_assignment s a
stored (join_assigned j) a = set_join_assignment j a

rebuild_total :
    (w : ℤ) (j : JoinOperatorAssignment) (sides : Option Sides)
    → IsJoin j
    → j.sides ≡ sides
    → rebuild w j sides ≡ ok (as_addition (staffed w (join_assigned j)))
unfolding rebuild
rebuild_total w j none h e = rw (rebuild_join j (whole w) h e) refl
rebuild_total w j (some sides) h e = rw (rebuild_directional j sides (whole w) h e) refl

pub with_workers_total :
    (w : ℤ) (o : Assigned) → IsAssigned o → with_workers w o ≡ ok (as_addition (staffed w o))
unfolding with_workers
with_workers_total w (scan_assigned s) h = refl
with_workers_total w (join_assigned j) h = rebuild_total w j j.sides h refl

pub add-stored :
    (o : Assigned) (a : PhysicalOperatorAssignment) → add (as_addition o) a ≡ ok (stored o a)
unfolding add
add-stored (scan_assigned s) a = refl
add-stored (join_assigned j) a = refl

as_scan-some :
    (x : Option ScanOperatorAssignment) (o : Assigned)
    → as_scan x ≡ some o
    → (s : ScanOperatorAssignment) × (x ≡ some s) × (o ≡ scan_assigned s)
as_scan-some none o e = cc
as_scan-some (some s) o e = (s, refl, cc)

as_join-some :
    (x : Option JoinOperatorAssignment) (o : Assigned)
    → as_join x ≡ some o
    → (j : JoinOperatorAssignment) × (x ≡ some j) × (o ≡ join_assigned j)
as_join-some none o e = cc
as_join-some (some j) o e = (j, refl, cc)

-- What `get` finds stands at the tables that were asked for.
pub found_place :
    (a : PhysicalOperatorAssignment) (ts : List TableReference) (o : Assigned)
    → IsConsistent a
    → get_set ts a ≡ some o
    → IsAssigned o × (set_eq ts (place o) ≡ true)
unfolding get_set
found_place a [] o h e = cc
found_place a (t ∷ []) o h e =
    let (s, found, same_o) = as_scan-some (get t a.scan_operators) o e in
    subst (λ q. IsAssigned q × (set_eq (t ∷ []) (place q) ≡ true)) (sym same_o)
      (
        tt,
        set_eq_one t s.table
            ∙ get-Entries ScanAt ScanAt-stable t s a.scan_operators h.scans_at found,
      )
found_place a (t ∷ u ∷ ts) o h e =
    let (j, found, same_o) = as_join-some (get (t ∷ u ∷ ts) a.join_operators) o e in
    let (at, built) =
      get-Entries JoinAt JoinAt-stable (t ∷ u ∷ ts) j a.join_operators h.joins_at found in
    subst (λ q. IsAssigned q × (set_eq (t ∷ u ∷ ts) (place q) ≡ true)) (sym same_o) (built, at)

pub stored-IsConsistent :
    (w : ℤ) (o : Assigned) (a : PhysicalOperatorAssignment)
    → IsAssigned o
    → IsConsistent a
    → IsConsistent (stored (staffed w o) a)
stored-IsConsistent w (scan_assigned s) a p h = set_scan_assignment-IsConsistent a h _
stored-IsConsistent w (join_assigned j) a p h =
    set_join_assignment-IsConsistent a h _
      (record { two = p.two; distinct = p.distinct; sided = p.sided })

pub get_set-stored :
    (w : ℤ) (o : Assigned) (a : PhysicalOperatorAssignment) (ts : List TableReference)
    → IsAssigned o
    → Distinct ts
    → get_set ts (stored (staffed w o) a)
      ≡ (if set_eq (place o) ts then some (staffed w o) else get_set ts a)
get_set-stored w (scan_assigned s) a ts p d = get_set-set_scan _ a ts d
get_set-stored w (join_assigned j) a ts p d =
    get_set-set_join _ a ts (record { two = p.two; distinct = p.distinct; sided = p.sided }) d

-- The worker hints stand at sets of tables.
abbrev pub AtSets : Dict (List TableReference) ℤ → Type 0
AtSets = Entries (λ ts w. Distinct ts)

hinted-none : (x : Option ℤ) → hinted x none ≡ none
hinted-none none = refl
hinted-none (some w) = refl

-- One hint for tables at which nothing stands changes nothing.
hint_missing :
    (k ts : List TableReference) (w : ℤ) (x : Option ℤ) (a : PhysicalOperatorAssignment)
    → Distinct k
    → Distinct ts
    → get_set k a ≡ none
    → hinted x (get_set ts a) ≡ hinted (if set_eq k ts then some w else x) (get_set ts a)
hint_missing k ts w x a dk d gone = elim (Bool-cases (set_eq k ts)) [
  | inl here ↦ rw (here, sym (get_set-same a k ts dk d here) ∙ gone, hinted-none x) refl
  | inr other ↦ rw other refl
]

-- One hint for tables at which an operator stands gives it the workers.
hint_found :
    (k ts : List TableReference) (w : ℤ) (x : Option ℤ) (a : PhysicalOperatorAssignment)
    (o : Assigned)
    → Distinct k
    → Distinct ts
    → IsConsistent a
    → get_set k a ≡ some o
    → (set_eq k ts ≡ true → x ≡ none)
    → hinted x (get_set ts (stored (staffed w o) a))
      ≡ hinted (if set_eq k ts then some w else x) (get_set ts a)
hint_found k ts w x a o dk d h found fresh =
    let (built, here) = found_place a k o h found in
    let sets : Key (List TableReference) = set_key in
    let placed : set_eq k ts ≡ set_eq (place o) ts = same_left k (place o) ts here in
    rw (get_set-stored w o a ts built d, ← placed)
      (elim (Bool-cases (set_eq k ts)) [
        | inl at ↦ rw (at, fresh at, sym (get_set-same a k ts dk d at) ∙ found) refl
        | inr other ↦ rw other refl
      ])

-- The loop of integrate_workers_from without fail_on_missing, on a consistent assignment and a
-- dictionary of hints for sets of tables: it does not raise, the assignment that it returns is
-- consistent, and get returns from it, for each set of tables, what it returned before with the
-- number of workers of the hint for the same set, if there is one.
pub integrate_lem :
    (entries : Dict (List TableReference) ℤ) (a : PhysicalOperatorAssignment)
    (ts : List TableReference)
    → IsConsistent a
    → IsDict entries
    → AtSets entries
    → Distinct ts
    → Returns
        (λ b. IsConsistent b × (get_set ts b ≡ hinted (get ts entries) (get_set ts a)))
        (integrate false entries a)
unfolding integrate get
integrate_lem [] a ts h i s d = (h, refl)
integrate_lem ((k, w) ∷ entries) a ts h (fresh, i) (at, s) d = elim (Option-cases (get_set k a)) [
  | inl gone ↦
      rw (gone, integrate)
        (Returns-map _ _ (integrate false entries a)
          (λ b p. (p.0, p.1 ∙ hint_missing k ts w (get ts entries) a at d gone))
          (integrate_lem entries a ts h i s d))
  | inr (o, found) ↦
      let (built, here) = found_place a k o h found in
      rw (found, integrate, with_workers_total w o built, add-stored (staffed w o) a)
        (Returns-map _ _ (integrate false entries (stored (staffed w o) a))
          (λ b p. (
            p.0,
            p.1
                ∙ hint_found k ts w (get ts entries) a o at d h found
                    (λ same_set. sym (get-same k ts entries same_set) ∙ fresh),
          ))
          (integrate_lem entries (stored (staffed w o) a) ts (stored-IsConsistent w o a built h) i s
            d))
]
