-- ===== src/Util/Examples.antt =====
-- Queues and versions at which the theorems are applied.
use post_bound.Base.{Bool, true, ◌≡◌, not, ◌==◌, ◌↔◌, [], ◌∷◌, ℕ, pos}
use post_bound.Util.Queue.{Queue}
use post_bound.Util.Versions.{version_lt, version_lt_iff, Less}

-- The truth value of a number.
abbrev is_true : ℕ → Bool
is_true n = not (n == 0)

abbrev two_items : Queue ℕ
two_items = record { items = 4 ∷ 7 ∷ [] }

version_lt_iff_example :
    (version_lt (pos 9 ∷ pos 6 ∷ []) (pos 14 ∷ []) ≡ true) ↔ Less (pos 9 ∷ pos 6 ∷ []) (pos 14 ∷ [])
version_lt_iff_example = version_lt_iff (pos 9 ∷ pos 6 ∷ []) (pos 14 ∷ [])
