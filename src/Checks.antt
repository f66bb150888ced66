-- ===== src/Checks.antt =====
-- `PreCheckResult` and the check of `CompoundCheck` of postbound/validation.py. The single checks are
-- given by their results.
pub mod Merged
mod Examples
use post_bound.Base.{
  Bool, true, false, List, [], ◌∷◌, ◌++◌, Text, if◌then◌else◌, every, not, Result, ok, err,
  state_error, unsupported_query, unsupported_system,
}

pub data Reason : Type 0 where
  text : Text → Reason
  texts : List Text → Reason

pub record PreCheckResult : Type 0 where
  pub passed : Bool
  pub failure_reason : Reason

-- `failure_reason if failure_reason else ""`
abbrev given_reason : Reason → Reason
given_reason (texts []) = text []
given_reason reason = reason

-- `__init__`
unfoldable pub create : Bool → Reason → PreCheckResult
create passed failure_reason = record {
  passed = passed;
  failure_reason = given_reason failure_reason;
}

unfoldable pub with_all_passed : PreCheckResult
unfolding create
with_all_passed = create true (text [])

unfoldable pub with_failure : Reason → PreCheckResult
unfolding create
with_failure failure = create false failure

-- A single reason is appended, several ones extend the list.
abbrev pub flat : Reason → List Text
flat (text reason) = reason ∷ []
flat (texts reasons) = reasons

-- The loop of `merge`.
abbrev pub failures : List PreCheckResult → List Text
failures [] = []
failures (check ∷ checks) =
    if check.passed then failures checks else flat check.failure_reason ++ failures checks

abbrev pub merged : List Text → PreCheckResult
unfolding with_all_passed with_failure
merged [] = with_all_passed
merged (reason ∷ reasons) = with_failure (texts (reason ∷ reasons))

-- `merge`
unfoldable pub merge : List PreCheckResult → PreCheckResult
merge checks = merged (failures checks)

-- `flatten` on the reasons of all checks.
abbrev pub all_reasons : List PreCheckResult → List Text
all_reasons [] = []
all_reasons (check ∷ checks) = flat check.failure_reason ++ all_reasons checks

-- `CompoundCheck.check_supported_query`, on the results of its checks.
unfoldable pub check_supported_query : List PreCheckResult → PreCheckResult
unfolding create
check_supported_query check_results =
    let aggregated_passed = every (λ (r : PreCheckResult). r.passed) check_results in
    create aggregated_passed
      (texts (if not aggregated_passed then all_reasons check_results else []))

-- What a check was made for.
pub data Context : Type 0 where
  no_context query database : Context

-- `ensure_all_passed`
unfoldable pub ensure_all_passed : Context → PreCheckResult → Result Bool
ensure_all_passed context r = if r.passed then ok true else elim context [
  | no_context ↦ err state_error
  | query ↦ err unsupported_query
  | database ↦ err unsupported_system
]
