-- ===== src/Hints/Assignment/Consistent.antt =====
-- The invariant of `PhysicalOperatorAssignment` of postbound/_hints.py: its dictionaries agree with the
-- assignments that they hold.
use post_bound.Base.{
  Bool, true, false, ◌≡◌, Option, none, some, List, [], ◌∷◌, same, put, IsDict, Entries, put-IsDict,
  merge-IsDict, restrict-IsDict, put-Entries, merge-Entries, restrict-Entries, OnOk, set_key, Key,
  OnOk->>=,
}
use post_bound.Core.Operators.{
  PhysicalOperator, scan_op, join_op, intermediate_op, operator_key, JoinOperator,
  IntermediateOperator,
}
use post_bound.Core.Cardinality.{nan}
use post_bound.Core.Table.{TableReference, table_key}
use post_bound.Hints.Operators.{
  ScanOperatorAssignment, JoinOperatorAssignment, IsJoin, create_join-IsJoin, create_join,
}
use post_bound.Hints.Assignment.{
  PhysicalOperatorAssignment, Addition, plain, scan, join, no_tables, one, many, add, merge_with,
  set_scan_assignment, set_join_assignment, set_intermediate_operator,
  set_operator_enabled_globally, set_scan_operator, set_join_operator, drop_contradicting,
  scan_differs, join_differs, intermediate_differs, as_list,
}

-- A scan stands at its table.
abbrev pub ScanAt : TableReference → ScanOperatorAssignment → Type 0
ScanAt table s = same table s.table ≡ true

-- A join stands at the set of its tables, and is one that a constructor returns.
abbrev pub JoinAt : List TableReference → JoinOperatorAssignment → Type 0
JoinAt tables j = (same tables j.join ≡ true) × IsJoin j

pub record IsConsistent (a : PhysicalOperatorAssignment) : Type 0 where
  pub globals : IsDict a.global_settings
  pub joins : IsDict a.join_operators
  pub intermediates : IsDict a.intermediate_operators
  pub scans : IsDict a.scan_operators
  pub scans_at : Entries ScanAt a.scan_operators
  pub joins_at : Entries JoinAt a.join_operators

pub ScanAt-stable :
    (t u : TableReference) (s : ScanOperatorAssignment) → same t u ≡ true → ScanAt u s → ScanAt t s
ScanAt-stable t u s h p = table_key.same_trans t u s.table h p

pub JoinAt-stable :
    (ts us : List TableReference) (j : JoinOperatorAssignment)
    → same ts us ≡ true
    → JoinAt us j
    → JoinAt ts j
JoinAt-stable ts us j h (p, built) =
    let sets : Key (List TableReference) = set_key in (sets.same_trans ts us j.join h p, built)

-- The assignment that an addition brings along is one that a constructor returns.
abbrev pub IsAddition : Addition → Type 0
IsAddition (join j) = IsJoin j
IsAddition _ = Unit

module _ (a : PhysicalOperatorAssignment) (h : IsConsistent a) where
  pub set_scan_assignment-IsConsistent :
      (s : ScanOperatorAssignment) → IsConsistent (set_scan_assignment s a)
  unfolding set_scan_assignment
  set_scan_assignment-IsConsistent s = record {
    globals = h.globals;
    joins = h.joins;
    intermediates = h.intermediates;
    scans = put-IsDict s.table s a.scan_operators h.scans;
    scans_at =
        put-Entries ScanAt ScanAt-stable s.table s a.scan_operators (table_key.same_refl s.table)
          h.scans_at;
    joins_at = h.joins_at;
  }

  pub set_join_assignment-IsConsistent :
      (j : JoinOperatorAssignment) → IsJoin j → IsConsistent (set_join_assignment j a)
  unfolding set_join_assignment
  set_join_assignment-IsConsistent j built =
      let sets : Key (List TableReference) = set_key in
      record {
        globals = h.globals;
        joins = put-IsDict j.join j a.join_operators h.joins;
        intermediates = h.intermediates;
        scans = h.scans;
        scans_at = h.scans_at;
        joins_at =
            put-Entries JoinAt JoinAt-stable j.join j a.join_operators
              (sets.same_refl j.join, built) h.joins_at;
      }

  set_join_operator-IsConsistent :
      (operator : JoinOperator) (tables : Option (List TableReference))
      → OnOk IsConsistent (set_join_operator operator tables a)
  unfolding set_join_operator
  set_join_operator-IsConsistent operator none = tt
  set_join_operator-IsConsistent operator (some tables) =
      OnOk->>= IsJoin IsConsistent (create_join operator tables nan)
        (create_join-IsJoin operator tables nan) set_join_assignment-IsConsistent

  set_intermediate_operator-IsConsistent :
      (operator : IntermediateOperator) (tables : List TableReference)
      → IsConsistent (set_intermediate_operator operator tables a)
  unfolding set_intermediate_operator
  set_intermediate_operator-IsConsistent operator tables = record {
    globals = h.globals;
    joins = h.joins;
    intermediates = put-IsDict _ operator a.intermediate_operators h.intermediates;
    scans = h.scans;
    scans_at = h.scans_at;
    joins_at = h.joins_at;
  }

  drop_contradicting-IsConsistent :
      (operator : PhysicalOperator) → IsConsistent (drop_contradicting operator a)
  unfolding drop_contradicting
  drop_contradicting-IsConsistent (scan_op operator) = record {
    globals = h.globals;
    joins = h.joins;
    intermediates = h.intermediates;
    scans = restrict-IsDict (scan_differs operator) a.scan_operators h.scans;
    scans_at = restrict-Entries ScanAt (scan_differs operator) a.scan_operators h.scans_at;
    joins_at = h.joins_at;
  }
  drop_contradicting-IsConsistent (join_op operator) = record {
    globals = h.globals;
    joins = restrict-IsDict (join_differs operator) a.join_operators h.joins;
    intermediates = h.intermediates;
    scans = h.scans;
    scans_at = h.scans_at;
    joins_at = restrict-Entries JoinAt (join_differs operator) a.join_operators h.joins_at;
  }
  drop_contradicting-IsConsistent (intermediate_op operator) = record {
    globals = h.globals;
    joins = h.joins;
    intermediates =
        restrict-IsDict (intermediate_differs operator) a.intermediate_operators h.intermediates;
    scans = h.scans;
    scans_at = h.scans_at;
    joins_at = h.joins_at;
  }

  put_global-IsConsistent :
      (operator : PhysicalOperator) (enabled : Bool)
      → IsConsistent (record a { global_settings = put operator enabled a.global_settings })
  put_global-IsConsistent operator enabled = record {
    globals = put-IsDict operator enabled a.global_settings h.globals;
    joins = h.joins;
    intermediates = h.intermediates;
    scans = h.scans;
    scans_at = h.scans_at;
    joins_at = h.joins_at;
  }

  pub add-IsConsistent : (x : Addition) → IsAddition x → OnOk IsConsistent (add x a)
  unfolding add set_scan_operator set_intermediate_operator
  add-IsConsistent (plain (scan_op operator) no_tables) p = tt
  add-IsConsistent (plain (scan_op operator) (one t)) p = set_scan_assignment-IsConsistent _
  add-IsConsistent (plain (scan_op operator) (many [])) p = tt
  add-IsConsistent (plain (scan_op operator) (many (t ∷ []))) p = set_scan_assignment-IsConsistent _
  add-IsConsistent (plain (scan_op operator) (many (t ∷ u ∷ ts))) p = tt
  add-IsConsistent (plain (join_op operator) tables) p =
      set_join_operator-IsConsistent operator (as_list tables)
  add-IsConsistent (plain (intermediate_op operator) no_tables) p = tt
  add-IsConsistent (plain (intermediate_op operator) (one t)) p =
      set_intermediate_operator-IsConsistent operator (t ∷ [])
  add-IsConsistent (plain (intermediate_op operator) (many ts)) p =
      set_intermediate_operator-IsConsistent operator ts
  add-IsConsistent (scan s) p = set_scan_assignment-IsConsistent s
  add-IsConsistent (join j) p = set_join_assignment-IsConsistent j p

-- A global setting keeps a consistent assignment consistent, whether contradicting assignments are
-- removed or not.
pub set_operator_enabled_globally-IsConsistent :
    (operator : PhysicalOperator) (enabled overwrite : Bool) (a : PhysicalOperatorAssignment)
    → IsConsistent a
    → IsConsistent (set_operator_enabled_globally operator enabled overwrite a)
unfolding set_operator_enabled_globally
set_operator_enabled_globally-IsConsistent operator enabled false a h =
    put_global-IsConsistent a h operator enabled
set_operator_enabled_globally-IsConsistent operator true true a h =
    put_global-IsConsistent a h operator true
set_operator_enabled_globally-IsConsistent operator false true a h =
    drop_contradicting-IsConsistent _ (put_global-IsConsistent a h operator false) operator

-- The merge of two consistent assignments is consistent.
pub merge_with-IsConsistent :
    (a b : PhysicalOperatorAssignment)
    → IsConsistent a
    → IsConsistent b
    → IsConsistent (merge_with a b)
unfolding merge_with
merge_with-IsConsistent a b h g = record {
  globals = merge-IsDict a.global_settings b.global_settings h.globals;
  joins = merge-IsDict a.join_operators b.join_operators h.joins;
  intermediates = merge-IsDict a.intermediate_operators b.intermediate_operators h.intermediates;
  scans = merge-IsDict a.scan_operators b.scan_operators h.scans;
  scans_at =
      merge-Entries ScanAt ScanAt-stable a.scan_operators b.scan_operators h.scans_at g.scans_at;
  joins_at =
      merge-Entries JoinAt JoinAt-stable a.join_operators b.join_operators h.joins_at g.joins_at;
}
