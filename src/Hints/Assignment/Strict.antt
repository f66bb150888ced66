-- ===== src/Hints/Assignment/Strict.antt =====
-- `integrate_workers_from` with `fail_on_missing`.
use post_bound.Base.{
  Bool, true, false, ◌≡◌, refl, err, value_error, some, List, [], ◌∷◌, Dict, Distinct, every,
  set_eq, if◌then◌else◌, Bool-cases, Option-cases, inl, inr, ℤ, is_some, sym, ◌∙◌, set_key,
}
use post_bound.Core.Table.{TableReference, table_key}
use post_bound.Hints.Assignment.{PhysicalOperatorAssignment}
use post_bound.Hints.Assignment.Queries.{Assigned, get_set, integrate}
use post_bound.Hints.Assignment.Consistent.{IsConsistent}
use post_bound.Hints.Assignment.Lookups.{get_set-same}
use post_bound.Hints.Assignment.Workers.{
  staffed, stored, place, AtSets, found_place, with_workers_total, add-stored, get_set-stored,
  stored-IsConsistent,
}

-- Something stands at the tables of every hint.
abbrev pub all_set : Dict (List TableReference) ℤ → PhysicalOperatorAssignment → Bool
all_set entries a = every (λ (e : List TableReference × ℤ). is_some (get_set e.0 a)) entries

-- New numbers of workers at a set of tables leave it as it is whether something stands at a set.
is_some-stored :
    (k ts : List TableReference) (w : ℤ) (o : Assigned) (a : PhysicalOperatorAssignment)
    → IsConsistent a
    → Distinct k
    → Distinct ts
    → get_set k a ≡ some o
    → is_some (get_set ts (stored (staffed w o) a)) ≡ is_some (get_set ts a)
is_some-stored k ts w o a h dk d found =
    let (built, here) = found_place a k o h found in
    elim (Bool-cases (set_eq (place o) ts)) [
      | inl at ↦
          rw
            (
              get_set-stored w o a ts built d,
              at,
              sym (get_set-same a k ts dk d (set_key.same_trans k (place o) ts here at)) ∙ found,
            )
            refl
      | inr other ↦ rw (get_set-stored w o a ts built d, other) refl
    ]

all_set-stored :
    (entries : Dict (List TableReference) ℤ) (k : List TableReference) (w : ℤ) (o : Assigned)
    (a : PhysicalOperatorAssignment)
    → IsConsistent a
    → Distinct k
    → AtSets entries
    → get_set k a ≡ some o
    → all_set entries (stored (staffed w o) a) ≡ all_set entries a
all_set-stored [] k w o a h dk s found = refl
all_set-stored ((ts, v) ∷ entries) k w o a h dk (d, s) found =
    rw (is_some-stored k ts w o a h dk d found, all_set-stored entries k w o a h dk s found) refl

-- The loop of integrate_workers_from with fail_on_missing, on a consistent assignment and hints
-- for sets of tables, raises ValueError if nothing stands at the tables of some hint, and does the
-- same as without it if something stands at the tables of each hint.
pub integrate_strict :
    (entries : Dict (List TableReference) ℤ) (a : PhysicalOperatorAssignment)
    → IsConsistent a
    → AtSets entries
    → integrate true entries a
      ≡ (if all_set entries a then integrate false entries a else err value_error)
unfolding integrate
integrate_strict [] a h s = refl
integrate_strict ((k, w) ∷ entries) a h (d, s) = elim (Option-cases (get_set k a)) [
  | inl gone ↦ rw (gone, integrate) refl
  | inr (o, found) ↦
      let (built, here) = found_place a k o h found in
      rw
        (
          found,
          integrate,
          with_workers_total w o built,
          add-stored (staffed w o) a,
          integrate_strict entries (stored (staffed w o) a) (stored-IsConsistent w o a built h) s,
          all_set-stored entries k w o a h d s found,
        )
        refl
]
