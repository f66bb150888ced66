-- ===== src/Checks/Examples.antt =====
-- Results of checks at which the theorems are applied.
use post_bound.Base.{true, false, ◌≡◌, refl, [], ◌∷◌}
use post_bound.Checks.{PreCheckResult, text, texts, merge, check_supported_query}
use post_bound.Checks.Merged.{merge_lem}

abbrev fine : PreCheckResult
fine = record { passed = true; failure_reason = text [] }

abbrev bad : PreCheckResult
bad = record { passed = false; failure_reason = texts ((b'a' ∷ []) ∷ (b'b' ∷ []) ∷ []) }

merge_lem_example :
    ((merge (fine ∷ bad ∷ [])).passed ≡ false)
    × ((check_supported_query (fine ∷ bad ∷ [])).passed ≡ (merge (fine ∷ bad ∷ [])).passed)
    × (merge (fine ∷ bad ∷ bad ∷ []) ≡ merge (merge (fine ∷ bad ∷ []) ∷ merge (bad ∷ []) ∷ []))
merge_lem_example = merge_lem (fine ∷ bad ∷ []) (bad ∷ []) (tt, (tt, tt))

-- The reasons of a compound check list an empty one for each check that passed with no reason.
compound_reasons :
    (check_supported_query (fine ∷ bad ∷ [])).failure_reason
    ≡ texts ([] ∷ (b'a' ∷ []) ∷ (b'b' ∷ []) ∷ [])
unfolding check_supported_query post_bound.Checks.create
compound_reasons = refl
