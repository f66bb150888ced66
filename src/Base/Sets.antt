-- ===== src/Base/Sets.antt =====
-- Python's sets of keys. A set is a list of keys without repetition, read up to order.
use mathlib.Core.Path.{◌≡◌, refl, ◌∙◌, sym}
use mathlib.Core.Bool.{Bool, true, false, ◌&&◌, ◌||◌}
use mathlib.Core.List.{List, [], ◌∷◌, ◌++◌}
use native.Mathlib.Omega.{arith}
use post_bound.Base.Tests.{if◌then◌else◌, Bool-ext}
use post_bound.Base.Keys.{Key, same, same_right}
use post_bound.Base.Lists.{select}

module _ {ℓ} {K : Type ℓ} ⦃key : Key K⦄ where
  -- `k in xs`
  unfoldable pub mem : K → List K → Bool
  mem k [] = false
  mem k (x ∷ xs) = same x k || mem k xs

  -- `xs.add(k)`
  unfoldable pub insert : K → List K → List K
  insert k xs = if mem k xs then xs else xs ++ (k ∷ [])

  -- `xs | ys`
  unfoldable pub union : List K → List K → List K
  unfolding insert
  union xs [] = xs
  union xs (y ∷ ys) = union (insert y xs) ys

  -- `set(ys)`
  unfoldable pub to_set : List K → List K
  unfolding union
  to_set ys = union [] ys

  -- `xs.issubset(ys)`
  unfoldable pub subset : List K → List K → Bool
  unfolding mem
  subset [] ys = true
  subset (x ∷ xs) ys = mem x ys && subset xs ys

  -- `xs & ys`
  unfoldable pub inter : List K → List K → List K
  unfolding mem
  inter xs ys = select (λ x. mem x ys) xs

  -- `xs == ys`
  unfoldable pub set_eq : List K → List K → Bool
  unfolding subset
  set_eq xs ys = subset xs ys && subset ys xs

  -- No key stands twice.
  abbrev pub Distinct : List K → Type 0
  Distinct [] = Unit
  Distinct (x ∷ xs) = (mem x xs ≡ false) × Distinct xs

module _ {ℓ} {K : Type ℓ} ⦃key : Key K⦄ where
  pub mem-same : (a b : K) (xs : List K) → same a b ≡ true → mem a xs ≡ mem b xs
  unfolding mem
  mem-same a b [] h = refl
  mem-same a b (x ∷ xs) h = rw (same_right a b x h, mem-same a b xs h)

  pub mem-append : (k : K) (xs ys : List K) → mem k (xs ++ ys) ≡ (mem k xs || mem k ys)
  unfolding mem
  mem-append k [] ys = refl
  mem-append k (x ∷ xs) ys = ground (arith, mem-append k xs ys)

  pub mem-insert : (k j : K) (xs : List K) → mem j (insert k xs) ≡ (mem j xs || same k j)
  unfolding insert mem
  mem-insert k j xs = ground (arith, mem-append j xs (k ∷ []), mem-same k j xs)

  pub mem-union : (j : K) (xs ys : List K) → mem j (union xs ys) ≡ (mem j xs || mem j ys)
  unfolding union mem
  mem-union j xs [] = ground arith
  mem-union j xs (y ∷ ys) = ground (arith, mem-union j (insert y xs) ys, mem-insert y j xs)

  pub mem-to_set : (j : K) (ys : List K) → mem j (to_set ys) ≡ mem j ys
  unfolding to_set mem
  mem-to_set j ys = mem-union j [] ys

  pub mem_of_subset :
      (k : K) (xs ys : List K) → subset xs ys ≡ true → mem k xs ≡ true → mem k ys ≡ true
  unfolding subset mem
  mem_of_subset k [] ys h m = cc
  mem_of_subset k (x ∷ xs) ys h m = ground (arith, mem_of_subset k xs ys, mem-same x k ys)

  pub subset_intro :
      (xs ys : List K) → ((k : K) → mem k xs ≡ true → mem k ys ≡ true) → subset xs ys ≡ true
  unfolding subset mem
  subset_intro [] ys h = refl
  subset_intro (x ∷ xs) ys h =
      ground (arith, h x, key.same_refl x, subset_intro xs ys (λ k m. h k (ground arith)))

  pub mem_of_set_eq : (k : K) (xs ys : List K) → set_eq xs ys ≡ true → mem k xs ≡ mem k ys
  unfolding set_eq
  mem_of_set_eq k xs ys h =
      Bool-ext _ _ (mem_of_subset k xs ys (ground arith)) (mem_of_subset k ys xs (ground arith))

  -- Two sets are equal when they have the same members.
  pub set_eq_intro : (xs ys : List K) → ((k : K) → mem k xs ≡ mem k ys) → set_eq xs ys ≡ true
  unfolding set_eq
  set_eq_intro xs ys h =
      ground (arith, subset_intro xs ys (λ k m. sym (h k) ∙ m), subset_intro ys xs (λ k m. h k ∙ m))

-- A frozen set is a key of dictionaries and sets.
module _ {ℓ} {K : Type ℓ} ⦃key : Key K⦄ where
  pub set_eq_refl : (xs : List K) → set_eq xs xs ≡ true
  set_eq_refl xs = set_eq_intro xs xs (λ k. refl)

  pub set_eq-sym : (xs ys : List K) → set_eq xs ys ≡ true → set_eq ys xs ≡ true
  set_eq-sym xs ys h = set_eq_intro ys xs (λ k. sym (mem_of_set_eq k xs ys h))

  pub set_eq_trans :
      (xs ys zs : List K) → set_eq xs ys ≡ true → set_eq ys zs ≡ true → set_eq xs zs ≡ true
  set_eq_trans xs ys zs g h =
      set_eq_intro xs zs (λ k. mem_of_set_eq k xs ys g ∙ mem_of_set_eq k ys zs h)

  instance abbrev pub set_key : Key (List K)
  set_key = record {
    same = set_eq;
    same_refl = set_eq_refl;
    same_sym = set_eq-sym;
    same_trans = set_eq_trans;
  }
