-- ===== src/Checks/Merged.antt =====
-- Merged results of postbound/validation.py.
use post_bound.Base.{
  Bool, true, false, ◌≡◌, refl, arith, List, [], ◌∷◌, ◌++◌, Text, every, All, Bool-cases, inl, inr,
  sym, ◌∙◌,
}
use mathlib.Core.List.{append_assoc, append-nil}
use post_bound.Checks.{
  PreCheckResult, Reason, text, texts, merge, failures, flat, merged, check_supported_query,
  with_all_passed, with_failure, create,
}

-- A result has a reason, as the constructor sees to it.
abbrev pub IsReason : Reason → Type 0
IsReason (text reason) = Unit
IsReason (texts []) = ⊥
IsReason (texts (reason ∷ reasons)) = Unit

abbrev pub AreResults : List PreCheckResult → Type 0
AreResults checks = All (λ (r : PreCheckResult). IsReason r.failure_reason) checks

failures-append : (xs ys : List PreCheckResult) → failures (xs ++ ys) ≡ failures xs ++ failures ys
failures-append [] ys = refl
failures-append (x ∷ xs) ys = elim (Bool-cases x.passed) [
  | inl fine ↦ rw (fine, failures-append xs ys) refl
  | inr bad ↦
      rw (bad, failures-append xs ys)
        (sym (append_assoc (flat x.failure_reason) (failures xs) (failures ys)))
]

-- The failures of a merged result are those that were merged.
failures-merged :
    (reasons : List Text) (checks : List PreCheckResult)
    → failures (merged reasons ∷ checks) ≡ reasons ++ failures checks
unfolding with_all_passed with_failure create
failures-merged [] checks = refl
failures-merged (r ∷ rs) checks = refl

abbrev is_nil : List Text → Bool
is_nil [] = true
is_nil (r ∷ rs) = false

failures-passed :
    (checks : List PreCheckResult)
    → AreResults checks
    → is_nil (failures checks) ≡ every (λ (r : PreCheckResult). r.passed) checks
failures-passed [] h = refl
failures-passed (x ∷ xs) (p, h) = ground (arith, failures-passed xs h)

merged-passed : (reasons : List Text) → (merged reasons).passed ≡ is_nil reasons
unfolding with_all_passed with_failure create
merged-passed [] = refl
merged-passed (r ∷ rs) = refl

merge-append : (xs ys : List PreCheckResult) → merge (xs ++ ys) ≡ merge (merge xs ∷ merge ys ∷ [])
unfolding merge
merge-append xs ys =
    rw
      (
        failures-append xs ys,
        failures-merged (failures xs) (merged (failures ys) ∷ []),
        failures-merged (failures ys) [],
        append-nil (failures ys),
      )
      refl

-- For results that have a reason, as their constructor sees to it: PreCheckResult.merge passes
-- exactly if every result does, and so does the check of a CompoundCheck; and merging in two steps
-- gives the same result as merging at once.
pub merge_lem :
    (xs ys : List PreCheckResult)
    → AreResults xs
    → ((merge xs).passed ≡ every (λ (r : PreCheckResult). r.passed) xs)
      × ((check_supported_query xs).passed ≡ (merge xs).passed)
      × (merge (xs ++ ys) ≡ merge (merge xs ∷ merge ys ∷ []))
unfolding merge check_supported_query create
merge_lem xs ys h =
    let all = merged-passed (failures xs) ∙ failures-passed xs h in
    (all, sym all, merge-append xs ys)
