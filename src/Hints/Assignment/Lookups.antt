-- ===== src/Hints/Assignment/Lookups.antt =====
-- What `get` returns after a change of the assignment.
use post_bound.Base.{
  Bool, true, false, ◌≡◌, refl, arith, Option, some, List, [], ◌∷◌, set_key, Distinct, get-put,
  get-merge, get-same, or_else, if◌then◌else◌, set_eq, set_eq-two_one, set_eq_comm, set_eq_nil,
  set_eq_one, ltb, length, sym, ◌∙◌,
}
use post_bound.Core.Table.{TableReference, table_key}
use post_bound.Hints.Operators.{ScanOperatorAssignment, JoinOperatorAssignment, IsJoin}
use post_bound.Hints.Assignment.{
  PhysicalOperatorAssignment, merge_with, set_scan_assignment, set_join_assignment,
}
use post_bound.Hints.Assignment.Queries.{scan_assigned, join_assigned, get_set, as_scan, as_join}
use post_bound.Hints.Assignment.Consistent.{IsConsistent}

-- `get` depends on the set of tables alone.
pub get_set-same :
    (a : PhysicalOperatorAssignment) (xs ys : List TableReference)
    → Distinct xs
    → Distinct ys
    → set_eq xs ys ≡ true
    → get_set xs a ≡ get_set ys a
unfolding get_set
get_set-same a [] [] d e h = refl
get_set-same a [] (y ∷ ys) d e h = cc (set_eq_comm [] (y ∷ ys), set_eq_nil y ys)
get_set-same a (x ∷ xs) [] d e h = cc (set_eq_nil x xs)
get_set-same a (x ∷ []) (y ∷ []) d e h =
    rw (get-same x y a.scan_operators (sym (set_eq_one x y) ∙ h)) refl
get_set-same a (x ∷ []) (y ∷ z ∷ ys) d e h =
    cc (set_eq_comm (x ∷ []) (y ∷ z ∷ ys), set_eq-two_one y z x ys e)
get_set-same a (w ∷ x ∷ xs) (y ∷ []) d e h = cc (set_eq-two_one w x y xs d)
get_set-same a (w ∷ x ∷ xs) (y ∷ z ∷ ys) d e h =
    rw (get-same (w ∷ x ∷ xs) (y ∷ z ∷ ys) a.join_operators h) refl

as_scan-if :
    (b : Bool) (s : ScanOperatorAssignment) (o : Option ScanOperatorAssignment)
    → as_scan (if b then some s else o) ≡ (if b then some (scan_assigned s) else as_scan o)
as_scan-if true s o = refl
as_scan-if false s o = refl

as_join-if :
    (b : Bool) (j : JoinOperatorAssignment) (o : Option JoinOperatorAssignment)
    → as_join (if b then some j else o) ≡ (if b then some (join_assigned j) else as_join o)
as_join-if true j o = refl
as_join-if false j o = refl

-- After a scan assignment is set, get returns it for the set of its table, and for every other set
-- of tables what it returned before.
pub get_set-set_scan :
    (s : ScanOperatorAssignment) (a : PhysicalOperatorAssignment) (ts : List TableReference)
    → Distinct ts
    → get_set ts (set_scan_assignment s a)
      ≡ (if set_eq (s.table ∷ []) ts then some (scan_assigned s) else get_set ts a)
unfolding get_set set_scan_assignment
get_set-set_scan s a [] d = rw (set_eq_nil s.table []) refl
get_set-set_scan s a (t ∷ []) d =
    rw (get-put s.table t s a.scan_operators, set_eq_one s.table t) (as_scan-if _ s _)
get_set-set_scan s a (t ∷ u ∷ ts) d =
    rw (set_eq_comm (s.table ∷ []) (t ∷ u ∷ ts), set_eq-two_one t u s.table ts d) refl

wide-ne-nil : (us : List TableReference) → ltb (length us) 2 ≡ false → set_eq us [] ≡ false
wide-ne-nil [] two = cc
wide-ne-nil (u ∷ us) two = set_eq_nil u us

wide-ne-one :
    (us : List TableReference) (v : TableReference)
    → ltb (length us) 2 ≡ false
    → Distinct us
    → set_eq us (v ∷ []) ≡ false
wide-ne-one [] v two d = cc
wide-ne-one (t ∷ []) v two d = cc
wide-ne-one (t ∷ u ∷ us) v two d = set_eq-two_one t u v us d

-- After a join assignment that a constructor returned is set, get returns it for its set of
-- tables, and for every other set of tables what it returned before.
pub get_set-set_join :
    (j : JoinOperatorAssignment) (a : PhysicalOperatorAssignment) (ts : List TableReference)
    → IsJoin j
    → Distinct ts
    → get_set ts (set_join_assignment j a)
      ≡ (if set_eq j.join ts then some (join_assigned j) else get_set ts a)
unfolding get_set set_join_assignment
get_set-set_join j a [] built d = rw (wide-ne-nil j.join built.two) refl
get_set-set_join j a (t ∷ []) built d = rw (wide-ne-one j.join t built.two built.distinct) refl
get_set-set_join j a (t ∷ u ∷ ts) built d =
    rw (get-put j.join (t ∷ u ∷ ts) j a.join_operators) (as_join-if _ j _)

-- In a merge with a consistent assignment that one takes precedence, for scans and for joins:
-- where it says nothing, get returns what it returns from the first one.
pub get_set-merge :
    (a b : PhysicalOperatorAssignment) (ts : List TableReference)
    → IsConsistent b
    → get_set ts (merge_with a b) ≡ or_else (get_set ts b) (get_set ts a)
unfolding get_set merge_with
get_set-merge a b [] h = refl
get_set-merge a b (t ∷ []) h = ground (arith, get-merge t a.scan_operators b.scan_operators h.scans)
get_set-merge a b (t ∷ u ∷ ts) h =
    ground (arith, get-merge (t ∷ u ∷ ts) a.join_operators b.join_operators h.joins)
