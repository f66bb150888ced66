-- ===== src/Plans/Extract/Cardinalities.antt =====
-- The cardinalities of a plan, by way of its join tree: `jointree_from_plan` and then
-- `parameters_from_plan` of postbound/_hints.py.
use post_bound.Base.{set_key}
use post_bound.Core.Table.{table_key}
use post_bound.Hints.JoinTree.{JoinTree}
