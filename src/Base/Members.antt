-- ===== src/Base/Members.antt =====
-- Sets without repetition, and comparisons of small sets.
use mathlib.Core.Path.{◌∙◌, ◌≡◌, refl, sym}
use mathlib.Core.Bool.{Bool, true, false, ◌&&◌}
use mathlib.Core.List.{List, [], ◌∷◌, ◌++◌, append-nil, append_assoc}
use mathlib.Core.Logic.{inl, inr}
use native.Mathlib.Omega.{arith}
use post_bound.Base.Tests.{Bool-cases, Bool-ext}
use post_bound.Base.Keys.{Key, same, same_comm}
use post_bound.Base.Lists.{select}
use post_bound.Base.Sets.{
  subset, mem_of_subset, mem_of_set_eq, mem-same, mem, insert, union, to_set, subset, set_eq,
  Distinct, mem-append, set_eq-sym,
}

module _ {ℓ} {K : Type ℓ} ⦃key : Key K⦄ where
  pub append-Distinct :
      (k : K) (xs : List K) → Distinct xs → mem k xs ≡ false → Distinct (xs ++ (k ∷ []))
  unfolding mem
  append-Distinct k [] d h = (refl, tt)
  append-Distinct k (x ∷ xs) (fresh, d) h = (
    ground (arith, mem-append x xs (k ∷ []), same_comm x k),
    append-Distinct k xs d (ground arith),
  )

  pub insert-Distinct : (k : K) (xs : List K) → Distinct xs → Distinct (insert k xs)
  unfolding insert
  insert-Distinct k xs d = elim (Bool-cases (mem k xs)) [
    | inl old ↦ rw old d
    | inr new ↦ rw new (append-Distinct k xs d new)
  ]

  pub union-Distinct : (xs ys : List K) → Distinct xs → Distinct (union xs ys)
  unfolding union
  union-Distinct xs [] d = d
  union-Distinct xs (y ∷ ys) d = union-Distinct (insert y xs) ys (insert-Distinct y xs d)

  pub to_set-Distinct : (ys : List K) → Distinct (to_set ys)
  unfolding to_set
  to_set-Distinct ys = union-Distinct [] ys tt

module _ {ℓ} {K : Type ℓ} ⦃key : Key K⦄ where
  -- No element of `ys` is in `xs`.
  abbrev pub Apart : List K → List K → Type 0
  Apart xs [] = Unit
  Apart xs (y ∷ ys) = (mem y xs ≡ false) × Apart xs ys

  pub Apart-snoc :
      (y : K) (xs ys : List K) → mem y ys ≡ false → Apart xs ys → Apart (xs ++ (y ∷ [])) ys
  unfolding mem
  Apart-snoc y xs [] f h = tt
  Apart-snoc y xs (z ∷ ys) f (g, h) =
      (ground (arith, mem-append z xs (y ∷ []), same_comm z y), Apart-snoc y xs ys (ground arith) h)

  pub union-Apart : (xs ys : List K) → Distinct ys → Apart xs ys → union xs ys ≡ xs ++ ys
  unfolding union insert
  union-Apart xs [] d h = sym (append-nil xs)
  union-Apart xs (y ∷ ys) (f, d) (g, h) =
      rw (g, union-Apart (xs ++ (y ∷ [])) ys d (Apart-snoc y xs ys f h), append_assoc) refl

  Apart-nil : (ys : List K) → Apart [] ys
  unfolding mem
  Apart-nil [] = tt
  Apart-nil (y ∷ ys) = (refl, Apart-nil ys)

  -- A set with a member outside another one is not part of it, nor equal to it.
  pub not_subset :
      (k : K) (xs ys : List K) → mem k xs ≡ true → mem k ys ≡ false → subset xs ys ≡ false
  not_subset k xs ys m n = elim (Bool-cases (subset xs ys)) [
    | inl inside ↦ cc (mem_of_subset k xs ys inside m)
    | inr outside ↦ outside
  ]

  pub not_equal :
      (k : K) (xs ys : List K) → mem k xs ≡ true → mem k ys ≡ false → set_eq xs ys ≡ false
  not_equal k xs ys m n = elim (Bool-cases (set_eq xs ys)) [
    | inl same_set ↦ cc (mem_of_set_eq k xs ys same_set)
    | inr other ↦ other
  ]

  pub Apart-mem : (k : K) (xs ys : List K) → Apart xs ys → mem k ys ≡ true → mem k xs ≡ false
  unfolding mem
  Apart-mem k xs [] h m = cc
  Apart-mem k xs (y ∷ ys) (f, h) m = elim (Bool-cases (same y k)) [
    | inl here ↦ sym (mem-same y k xs here) ∙ f
    | inr other ↦ Apart-mem k xs ys h (ground arith)
  ]

  -- A list without repetition is its own set.
  pub to_set_self : (ys : List K) → Distinct ys → to_set ys ≡ ys
  unfolding to_set
  to_set_self ys d = union-Apart [] ys d (Apart-nil ys)

  -- A set with two members is not equal to a set of one.
  pub set_eq-two_one :
      (x y z : K) (r : List K) → Distinct (x ∷ y ∷ r) → set_eq (x ∷ y ∷ r) (z ∷ []) ≡ false
  unfolding set_eq subset mem
  set_eq-two_one x y z r d = ground (arith, key.same_sym z x, key.same_trans x z y, same_comm x y)

  pub set_eq_comm : (xs ys : List K) → set_eq xs ys ≡ set_eq ys xs
  set_eq_comm xs ys = Bool-ext _ _ (set_eq-sym xs ys) (set_eq-sym ys xs)

  pub set_eq_nil : (x : K) (xs : List K) → set_eq (x ∷ xs) [] ≡ false
  unfolding set_eq subset mem
  set_eq_nil x xs = refl

  pub set_eq_one : (x y : K) → set_eq (x ∷ []) (y ∷ []) ≡ same x y
  unfolding set_eq subset mem
  set_eq_one x y = ground (arith, same_comm x y)

  -- Membership in a filtered list, for a test that equal keys pass alike.
  pub mem-select :
      (p : K → Bool) (k : K) (xs : List K)
      → ((a b : K) → same a b ≡ true → p a ≡ p b)
      → mem k (select p xs) ≡ (mem k xs && p k)
  unfolding mem
  mem-select p k [] stable = refl
  mem-select p k (x ∷ xs) stable = ground (arith, stable x k, mem-select p k xs stable)
