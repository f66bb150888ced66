-- ===== src/Core/Operators.antt =====
-- The operator enumerations of postbound/_core.py.
use post_bound.Base.{Bool, true, false, ◌≡◌, arith, Key}

pub data ScanOperator : Type 0 where
  sequential_scan index_scan index_only_scan bitmap_scan : ScanOperator

pub data JoinOperator : Type 0 where
  nested_loop_join hash_join sort_merge_join : JoinOperator

pub data IntermediateOperator : Type 0 where
  sort memoize materialize : IntermediateOperator

pub data PhysicalOperator : Type 0 where
  scan_op : ScanOperator → PhysicalOperator
  join_op : JoinOperator → PhysicalOperator
  intermediate_op : IntermediateOperator → PhysicalOperator

abbrev pub scan_eq : ScanOperator → ScanOperator → Bool
scan_eq sequential_scan sequential_scan = true
scan_eq index_scan index_scan = true
scan_eq index_only_scan index_only_scan = true
scan_eq bitmap_scan bitmap_scan = true
scan_eq _ _ = false

abbrev pub join_eq : JoinOperator → JoinOperator → Bool
join_eq nested_loop_join nested_loop_join = true
join_eq hash_join hash_join = true
join_eq sort_merge_join sort_merge_join = true
join_eq _ _ = false

abbrev pub intermediate_eq : IntermediateOperator → IntermediateOperator → Bool
intermediate_eq sort sort = true
intermediate_eq memoize memoize = true
intermediate_eq materialize materialize = true
intermediate_eq _ _ = false

abbrev pub operator_eq : PhysicalOperator → PhysicalOperator → Bool
operator_eq (scan_op a) (scan_op b) = scan_eq a b
operator_eq (join_op a) (join_op b) = join_eq a b
operator_eq (intermediate_op a) (intermediate_op b) = intermediate_eq a b
operator_eq _ _ = false

pub scan_eq_refl : (a : ScanOperator) → scan_eq a a ≡ true
scan_eq_refl a = ground arith

pub eq_of_scan_eq : (a b : ScanOperator) → scan_eq a b ≡ true → a ≡ b
eq_of_scan_eq a b h = ground arith

pub join_eq_refl : (a : JoinOperator) → join_eq a a ≡ true
join_eq_refl a = ground arith

pub eq_of_join_eq : (a b : JoinOperator) → join_eq a b ≡ true → a ≡ b
eq_of_join_eq a b h = ground arith

pub operator_eq_refl : (a : PhysicalOperator) → operator_eq a a ≡ true
operator_eq_refl a = ground arith

pub eq_of_operator_eq : (a b : PhysicalOperator) → operator_eq a b ≡ true → a ≡ b
eq_of_operator_eq a b h = ground arith

pub operator_eq-sym : (a b : PhysicalOperator) → operator_eq a b ≡ true → operator_eq b a ≡ true
operator_eq-sym a b h = ground (arith, eq_of_operator_eq a b h, operator_eq_refl a)

pub operator_eq_trans :
    (a b c : PhysicalOperator)
    → operator_eq a b ≡ true
    → operator_eq b c ≡ true
    → operator_eq a c ≡ true
operator_eq_trans a b c g h = cc (eq_of_operator_eq a b g, h)

-- An operator is a key of the global settings.
instance abbrev pub operator_key : Key PhysicalOperator
operator_key = record {
  same = operator_eq;
  same_refl = operator_eq_refl;
  same_sym = operator_eq-sym;
  same_trans = operator_eq_trans;
}
