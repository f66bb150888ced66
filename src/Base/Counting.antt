-- ===== src/Base/Counting.antt =====
-- Sets of the same size, one of which is part of the other.
use Prim.Native.Nat.{suc, ◌≤◌}
use mathlib.Core.Path.{◌≡◌, refl}
use mathlib.Core.Bool.{true, false}
use mathlib.Core.List.{List, [], ◌∷◌}
use mathlib.Core.Logic.{◌⊎◌, inl, inr}
use native.Mathlib.Omega.{arith}
use post_bound.Base.Tests.{if◌then◌else◌, Bool-cases}
use post_bound.Base.Keys.{Key, same}
use post_bound.Base.Lists.{length, Any}
use post_bound.Base.Sets.{mem, mem-same, set_eq, Distinct, subset_intro}

module _ {ℓ} {K : Type ℓ} ⦃key : Key K⦄ where
  -- The list without the first key that is the same as `k`.
  abbrev remove : K → List K → List K
  remove k [] = []
  remove k (x ∷ xs) = if same x k then xs else x ∷ remove k xs

  length-remove : (k : K) (xs : List K) → mem k xs ≡ true → suc (length (remove k xs)) ≡ length xs
  unfolding mem
  length-remove k [] h = cc
  length-remove k (x ∷ xs) h = ground (arith, length-remove k xs)

  mem-remove : (j k : K) (xs : List K) → same k j ≡ false → mem j (remove k xs) ≡ mem j xs
  unfolding mem
  mem-remove j k [] h = refl
  mem-remove j k (x ∷ xs) h =
      ground (arith, mem-remove j k xs h, key.same_sym x k, key.same_trans k x j)

  -- A part of a set that has as many keys as the set has all of them.
  covers :
      (xs ys : List K)
      → Distinct xs
      → length xs ≡ length ys
      → ((k : K) → mem k xs ≡ true → mem k ys ≡ true)
      → (k : K) → mem k ys ≡ true
      → mem k xs ≡ true
  unfolding mem
  covers [] [] d e h k m = m
  covers [] (y ∷ ys) d e h k m = absurd (omega arith)
  covers (x ∷ xs) ys (fresh, d) e h k m =
      let x_in : mem x ys ≡ true = h x (ground (arith, key.same_refl x)) in
      let rest = covers xs (remove x ys) d (omega (arith, length-remove x ys x_in)) (λ j n.
        elim (Bool-cases (same x j)) [
          | inl both ↦ cc (mem-same x j xs both, fresh, n)
          | inr other ↦ ground (arith, mem-remove j x ys other, h j)
        ]) in
      elim (Bool-cases (same x k)) [
        | inl here ↦ ground arith
        | inr other ↦ ground (arith, rest k, mem-remove k x ys other)
      ]

  pub set_eq_of_size :
      (xs ys : List K)
      → Distinct xs
      → length xs ≡ length ys
      → ((k : K) → mem k xs ≡ true → mem k ys ≡ true)
      → set_eq xs ys ≡ true
  unfolding set_eq
  set_eq_of_size xs ys d e h =
      ground (arith, subset_intro xs ys h, subset_intro ys xs (covers xs ys d e h))

  -- A set has at least as many keys as a part of it.
  pub length_of_part :
      (xs ys : List K)
      → Distinct xs
      → ((k : K) → mem k xs ≡ true → mem k ys ≡ true)
      → length xs ≤ length ys
  unfolding mem
  length_of_part [] ys d h = omega arith
  length_of_part (x ∷ xs) ys (fresh, d) h =
      let x_in : mem x ys ≡ true = h x (ground (arith, key.same_refl x)) in
      let rest = length_of_part xs (remove x ys) d (λ j n. elim (Bool-cases (same x j)) [
        | inl both ↦ cc (mem-same x j xs both, fresh, n)
        | inr other ↦ ground (arith, mem-remove j x ys other, h j)
      ]) in
      omega (arith, rest, length-remove x ys x_in)

module _ {K : Type 0} ⦃key : Key K⦄ where
  -- Either every key of `xs` is in `ys`, or some key of it is not.
  pub missing :
      (xs ys : List K)
      → ((k : K) → mem k xs ≡ true → mem k ys ≡ true)
        ⊎ ((k : K) × Any (λ x. x ≡ k) xs × (mem k ys ≡ false))
  unfolding mem
  missing [] ys = inl (λ k m. cc)
  missing (x ∷ xs) ys = elim (Bool-cases (mem x ys)) [
    | inr absent ↦ inr (x, inl refl, absent)
    | inl here ↦ elim (missing xs ys) [
      | inr (k, m, absent) ↦ inr (k, inr m, absent)
      | inl all ↦ inl (λ k m. ground (arith, mem-same x k ys, all k))
    ]
  ]
