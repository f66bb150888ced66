-- ===== src/DynProg/Search/Total.antt =====
-- `_standard_join_search` of postbound/opt/_dynprog.py as a whole, and when it returns.
use post_bound.Base.{Key, List, ℕ, number_key}
use post_bound.Core.Table.{TableReference, table_key}
use post_bound.DynProg.Paths.{Plan}
use post_bound.DynProg.Search.{Search, JoinRelLevel}
use post_bound.DynProg.Search.Levels.{KeepsTables}
use post_bound.DynProg.Search.Sound.{GatherKeeps}
use post_bound.DynProg.Search.Growth.{sets_at}
use post_bound.DynProg.Search.Ready.{AddsPaths, GatherKeepsPaths}
use post_bound.DynProg.Search.Rounds.{IsBuilt, IsConnected}

module _ {E P : Type 0} ⦃key : Key E⦄ (plan : Plan E P) (search : Search P)
    (base : List TableReference) (keeps : KeepsTables search base)
    (gathers : GatherKeeps plan search) (adds : AddsPaths plan search)
    (paths : GatherKeepsPaths plan search) (connected : IsConnected plan search base) where
  open search use {joins_between}

  abbrev sets : ℕ → JoinRelLevel P → List (List TableReference)
  sets n levels = sets_at plan search base keeps n levels

  abbrev IsDone : ℕ → JoinRelLevel P → Type 0
  IsDone level levels = IsBuilt plan search base keeps gathers adds paths connected level levels
