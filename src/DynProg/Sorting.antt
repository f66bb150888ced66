-- ===== src/DynProg/Sorting.antt =====
-- Sort orders: `SortKey` of postbound/_qep.py, and the tests on sort orders of
-- postbound/opt/_dynprog.py.
use post_bound.Base.{
  Bool, true, false, ◌≡◌, refl, arith, Key, List, [], ◌∷◌, length, inter, ltb, ◌==◌, if◌then◌else◌,
  not, ◌&&◌, ◌↔◌, Bool-cases, inl, inr, Result, ok, err, value_error, to_set, union,
}

-- `E` stands for the expressions that a relation may be sorted by.
pub record SortKey (E : Type 0) : Type 0 where
  pub members : List E
  pub ascending : Bool

abbrev same_direction : Bool → Bool → Bool
same_direction true b = b
same_direction false b = not b

-- `SortKey.of`, on the expression of a column.
abbrev pub of_column : {E : Type 0} → E → SortKey E
of_column column = record { members = column ∷ []; ascending = true }

module _ {E : Type 0} ⦃key : Key E⦄ where
  -- `SortKey.__init__`
  unfoldable pub create_key : List E → Bool → Result (SortKey E)
  unfolding to_set
  create_key columns ascending = elim (to_set columns) [
    | [] ↦ err value_error
    | m ∷ ms ↦ ok (record { members = m ∷ ms; ascending = ascending })
  ]

  -- `SortKey.merge_with`
  unfoldable pub merge_with : SortKey E → SortKey E → Result (SortKey E)
  unfolding create_key union
  merge_with k other =
      if not (same_direction k.ascending other.ascending)
      then err value_error
      else create_key (union k.members other.members) k.ascending

  -- `SortKey.is_compatible_with` on another sort key.
  unfoldable pub is_compatible_with : SortKey E → SortKey E → Bool
  unfolding inter
  is_compatible_with k other =
      if not (same_direction k.ascending other.ascending)
      then false
      else ltb 0 (length (inter k.members other.members))

  -- The loop of `_sorting_subsumes`.
  unfoldable pub keys_subsume : List (SortKey E) → List (SortKey E) → Bool
  unfolding is_compatible_with
  keys_subsume [] other = true
  keys_subsume (k ∷ sorting) [] = true
  keys_subsume (k ∷ sorting) (o ∷ other) =
      let rest = keys_subsume sorting other in if not (is_compatible_with k o) then false else rest

  abbrev is_sorted : List (SortKey E) → Bool
  is_sorted [] = false
  is_sorted (k ∷ sorting) = true

  -- `_sorting_subsumes`
  unfoldable pub sorting_subsumes : List (SortKey E) → List (SortKey E) → Bool
  unfolding keys_subsume
  sorting_subsumes sorting other =
      if is_sorted sorting && not (is_sorted other)
      then true
      else if is_sorted other && not (is_sorted sorting)
      then false
      else if ltb (length sorting) (length other)
      then false
      else keys_subsume sorting other

  -- `all(… for … in zip(sorting, other))`
  unfoldable pub all_compatible : List (SortKey E) → List (SortKey E) → Bool
  unfolding is_compatible_with
  all_compatible [] other = true
  all_compatible (k ∷ sorting) [] = true
  all_compatible (k ∷ sorting) (o ∷ other) = is_compatible_with k o && all_compatible sorting other

  -- `_same_sorting`; the sort keys of a plan are a sequence, and never `None`.
  unfoldable pub same_sorting : List (SortKey E) → List (SortKey E) → Bool
  unfolding all_compatible
  same_sorting sorting other =
      if not (length sorting == length other) then false else all_compatible sorting other

  -- The keys of `other` match the first keys of `sorting`, one by one.
  abbrev pub StartsWith : List (SortKey E) → List (SortKey E) → Type 0
  StartsWith sorting [] = Unit
  StartsWith [] (o ∷ other) = ⊥
  StartsWith (k ∷ sorting) (o ∷ other) = (is_compatible_with k o ≡ true) × StartsWith sorting other

  keys_subsume_iff :
      (s o : List (SortKey E))
      → ltb (length s) (length o) ≡ false
      → (keys_subsume s o ≡ true) ↔ StartsWith s o
  unfolding keys_subsume
  keys_subsume_iff [] [] h = (λ p. tt, λ p. refl)
  keys_subsume_iff [] (o ∷ os) h = absurd (ground arith)
  keys_subsume_iff (k ∷ ks) [] h = (λ p. tt, λ p. refl)
  keys_subsume_iff (k ∷ ks) (o ∷ os) h =
      let ih = keys_subsume_iff ks os (ground arith) in
      (λ p. (ground arith, ih.0 (ground arith)), λ q. ground (arith, ih.1 q.1, q.0))

  length-StartsWith : (s o : List (SortKey E)) → StartsWith s o → ltb (length s) (length o) ≡ false
  length-StartsWith [] [] h = refl
  length-StartsWith [] (o ∷ os) h = absurd h
  length-StartsWith (k ∷ ks) [] h = ground arith
  length-StartsWith (k ∷ ks) (o ∷ os) h = ground (arith, length-StartsWith ks os h.1)

  -- _sorting_subsumes returns True exactly if the first keys of the sort order are compatible, one
  -- by one, with the keys of the other one.
  pub sorting_subsumes_iff :
      (sorting other : List (SortKey E))
      → (sorting_subsumes sorting other ≡ true) ↔ StartsWith sorting other
  unfolding sorting_subsumes
  sorting_subsumes_iff [] [] = (λ p. tt, λ p. refl)
  sorting_subsumes_iff [] (o ∷ os) = (λ p. cc, λ p. absurd p)
  sorting_subsumes_iff (k ∷ ks) [] = (λ p. tt, λ p. refl)
  sorting_subsumes_iff (k ∷ ks) (o ∷ os) =
      elim (Bool-cases (ltb (length (k ∷ ks)) (length (o ∷ os)))) [
        | inl longer ↦ rw longer (λ p. cc, λ q. cc (longer, length-StartsWith (k ∷ ks) (o ∷ os) q))
        | inr fits ↦ rw fits (keys_subsume_iff (k ∷ ks) (o ∷ os) fits)
      ]
