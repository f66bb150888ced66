-- ===== src/Hints/Parameters.antt =====
-- `PlanParameterization` of postbound/_hints.py.
use post_bound.Base.{
  ◌≡◌, refl, Result, ok, err, value_error, ◌&&◌, not, if◌then◌else◌, Option, none, List, [], to_set,
  Text, is_blank, Dict, get, put, merge, ◌>>=◌, IsDict, merge-IsDict, or_else, get-merge, text_key,
  set_key, ℤ,
}
use post_bound.Core.Table.{TableReference, table_key}
use post_bound.Core.Cardinality.{Cardinality, Num, create}
use post_bound.Hints.Operators.{is_empty}

pub data ExecutionMode : Type 0 where
  sequential parallel : ExecutionMode

-- The values of the system settings are of no concern here: they are the parameter `Value`.
pub record PlanParameterization (Value : Type 0) : Type 0 where
  pub cardinalities : Dict (List TableReference) Cardinality
  pub parallel_workers : Dict (List TableReference) ℤ
  pub system_settings : Dict Text Value
  pub execution_mode : Option ExecutionMode

module _ {Value : Type 0} where
  -- `PlanParameterization.__init__`
  abbrev pub no_parameters : PlanParameterization Value
  no_parameters = record {
    cardinalities = [];
    parallel_workers = [];
    system_settings = [];
    execution_mode = none;
  }

  -- `add_cardinality` with a cardinality, and with a number.
  unfoldable pub add_cardinality :
      List TableReference → Cardinality → PlanParameterization Value → PlanParameterization Value
  unfolding put to_set
  add_cardinality tables cardinality p = record p {
    cardinalities = put (to_set tables) cardinality p.cardinalities;
  }

  unfoldable pub add_cardinality_number :
      List TableReference → Num → PlanParameterization Value → Result (PlanParameterization Value)
  unfolding create add_cardinality
  add_cardinality_number tables n p =
      create n >>= λ cardinality. ok (add_cardinality tables cardinality p)

  -- `set_workers`
  unfoldable pub set_workers :
      List TableReference → ℤ → PlanParameterization Value → PlanParameterization Value
  unfolding put to_set
  set_workers tables num_workers p = record p {
    parallel_workers = put (to_set tables) num_workers p.parallel_workers;
  }

  -- `set_system_settings`
  unfoldable pub set_system_settings :
      Text
      → Value
      → Dict Text Value
      → PlanParameterization Value
      → Result (PlanParameterization Value)
  unfolding put merge
  set_system_settings setting_name setting_value kwargs p =
      if not (is_blank setting_name) && not (is_empty kwargs)
      then err value_error
      else if is_blank setting_name && is_empty kwargs
      then err value_error
      else if not (is_blank setting_name)
      then ok (record p { system_settings = put setting_name setting_value p.system_settings })
      else ok (record p { system_settings = merge p.system_settings kwargs })

  -- `merge_with`: the execution mode of the result is the one of a fresh object.
  unfoldable pub merge_with :
      PlanParameterization Value → PlanParameterization Value → PlanParameterization Value
  unfolding merge
  merge_with p other = record {
    cardinalities = merge p.cardinalities other.cardinalities;
    parallel_workers = merge p.parallel_workers other.parallel_workers;
    system_settings = merge p.system_settings other.system_settings;
    execution_mode = none;
  }

  -- `drop_workers`
  unfoldable pub drop_workers : PlanParameterization Value → PlanParameterization Value
  drop_workers p = record {
    cardinalities = p.cardinalities;
    parallel_workers = [];
    system_settings = p.system_settings;
    execution_mode = p.execution_mode;
  }

  -- Each dictionary has one entry for a key.
  pub record IsParameterization (p : PlanParameterization Value) : Type 0 where
    pub cardinalities : IsDict p.cardinalities
    pub workers : IsDict p.parallel_workers
    pub settings : IsDict p.system_settings

  pub merge_with-IsParameterization :
      (p q : PlanParameterization Value)
      → IsParameterization p
      → IsParameterization (merge_with p q)
  unfolding merge_with
  merge_with-IsParameterization p q h = record {
    cardinalities = merge-IsDict p.cardinalities q.cardinalities h.cardinalities;
    workers = merge-IsDict p.parallel_workers q.parallel_workers h.workers;
    settings = merge-IsDict p.system_settings q.system_settings h.settings;
  }

  -- A merge of parameterizations, the second of which has one entry for each key, has every hint
  -- of the second one, and the hints of the first one for what the second one says nothing of; its
  -- execution mode is always unset.
  pub merge_with_precedence :
      (p q : PlanParameterization Value) (tables : List TableReference) (name : Text)
      → IsParameterization q
      → (get tables (merge_with p q).cardinalities
          ≡ or_else (get tables q.cardinalities) (get tables p.cardinalities))
        × (get tables (merge_with p q).parallel_workers
            ≡ or_else (get tables q.parallel_workers) (get tables p.parallel_workers))
        × (get name (merge_with p q).system_settings
            ≡ or_else (get name q.system_settings) (get name p.system_settings))
        × ((merge_with p q).execution_mode ≡ none)
  unfolding merge_with
  merge_with_precedence p q tables name h = (
    get-merge tables p.cardinalities q.cardinalities h.cardinalities,
    get-merge tables p.parallel_workers q.parallel_workers h.workers,
    get-merge name p.system_settings q.system_settings h.settings,
    refl,
  )
