-- ===== src/Lib.antt =====
-- PostBOUND is a framework for prototyping query optimizers in Python. An optimizer produces a join
-- tree, an assignment of physical operators and further plan parameters; these are turned into hints
-- for a database system. This library models the data that the parts of an optimizer exchange, and the
-- dynamic programming enumerator that builds access paths, searches the joins and decides which paths
-- are kept.
--
-- Which file models what:
--   Core/Operators, Core/Table, Core/Cardinality   postbound/_core.py: the enumerations of operators,
--     TableReference and Cardinality. A method with an in-place effect or a copy is a function that
--     returns the new value. Cardinality keeps its four slots; Core/Cardinality/Rows gives the three
--     states that the class documents, and Order and Arithmetic compare the methods with those states.
--   Hints/Operators, Hints/Parameters, Hints/Assignment   postbound/_hints.py: ScanOperatorAssignment,
--     JoinOperatorAssignment with its directional subclass (the field `sides`), PlanParameterization
--     and PhysicalOperatorAssignment. Hints/Assignment/Queries has the lookups and
--     integrate_workers_from, whose loop is `integrate`. The other modules below Hints/Assignment hold
--     the invariant (Consistent) and the theorems.
--   Hints/JoinTree   postbound/_hints.py: JoinTree, as the data type of what its factory methods build.
--   Hints/Extract   postbound/_hints.py: parameters_from_plan on logical join trees.
--   Plans   postbound/_qep.py: the containers PlanParams, PlanEstimates and PlanMeasures, Subplan and
--     QueryPlan. A plan is a node (its fields), its children and its subplan; the sequence of children
--     and the optional subplan are data types of the same mutual block. Plans/Build has the
--     constructors and the shallow copy, Plans/Traverse the traversals and searches, Plans/Tables the
--     sets of tables and lookup, Plans/Shape the tests on the order of joins, Plans/Canonical, Plans/Cout
--     and Plans/Updates the operations of these names. A function on plans comes with one on sequences
--     of plans and one on subplans, the loops of the source.
--   Plans/Extract   postbound/_hints.py: jointree_from_plan, parameters_from_plan and operators_from_plan
--     on query plans.
--   DynProg/Sorting, DynProg/Paths   postbound/_qep.py and postbound/opt/_dynprog.py: SortKey, the tests
--     on sort orders, RelOptInfo, standard_add_path (`add_to_paths`, with the loop `compete`), _add_path
--     and _set_cheapest of PostgresDynProg.
--   DynProg/Search   postbound/opt/_dynprog.py: _init_base_rels, _build_join_rel, _join_search_one_level
--     and _standard_join_search. The join levels are a dictionary from sizes to lists of relations; the
--     construction of paths, the estimator and the predicates are the record `Search`.
--   DynProg/Create, ScanPaths, MergePaths and JoinPaths   postbound/opt/_dynprog.py: the functions
--     _create_..._path, the scan paths and the gathered paths of a relation, and _add_paths_to_joinrel
--     with _match_unsorted_outer, _sort_inner_outer and _hash_inner_outer. What the enumerator is set up
--     with, the cost model, the predicates and what it asks of Postgres are the record `Planner`; a
--     change of a relation is a function that returns the new relation.
--   DynProg/Enumerate   postbound/opt/_dynprog.py: the join search over these functions, where an
--     exception ends the search (`search_joins`). Agrees compares it with DynProg/Search, and Whole puts
--     the parts together, for base relations with the paths that Base shows them to have.
--   DynProg/Execution   generate_execution_plan, over all of these.
--   Util/Queue, Util/SizedQueue, Util/Versions   postbound/util/collections.py and
--     postbound/util/misc.py: Queue, SizedQueue and Version.
--   Checks   postbound/validation.py: PreCheckResult, and the check of CompoundCheck on the results of its
--     checks.
--   Base   shared notation, Python's dictionaries (association lists with one entry for a key, in the
--     order of insertion), sets (lists without repetition, read up to order), exceptions (Result),
--     identifiers and integers.
--
-- Conventions. `==` and hashing of a class are an instance of Base/Keys, so dictionaries and sets find
-- their keys by the equality of the source. An exception is a value `err`; its kind is kept and its
-- message is not. `isinstance` tests are constructors of a data type. No definition needs fuel: each
-- loop is structural recursion on the list or the tree that the source walks over, or on the number of
-- rounds of a `range`.
--
-- Bounds and parameters. Numbers are NaN, an infinity or whole; floats that are not whole, and with them
-- the division, power and rounding operators of Cardinality, are not modelled. The factor 1.01 of
-- standard_add_path is taken exactly, on costs that are natural numbers in a fixed unit, or infinite.
-- Identifiers are lists of code points, and `lower` is that of ASCII. The query plan of the
-- path lists and of the join search is a parameter: a type with a cost and sort keys (`Plan`). So is, in
-- DynProg/Search, the construction of the paths of a join; DynProg/Enumerate takes both from Plans and
-- DynProg/JoinPaths. Annotations of join trees and
-- values of system settings are of any type. The predicates and expressions in a query plan are of any
-- type that names its tables (`HasTables`).
--
-- Not modelled: in the enumerator, the number of workers (a logarithm), the costs and plans of Postgres and
-- the settings read from it; the SQL syntax tree and its parser, relational algebra, the database backends,
-- the stages and pipelines that call them, benchmarks, workloads and visualisation; printing,
-- hashing as numbers, and the JSON forms.
pub mod Base
pub mod Core
pub mod Hints
pub mod DynProg
pub mod Util
pub mod Checks
pub mod Plans
