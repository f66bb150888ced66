-- ===== src/Base/Keys.antt =====
-- What Python's dictionaries and sets use of their keys: `__eq__`, which has to be an equivalence.
-- Two keys that are the same need not be one value (`TableReference.__eq__` ignores some fields).
use mathlib.Core.Path.{◌≡◌}
use mathlib.Core.Bool.{Bool, true}
use Prim.Native.Nat.{ℕ}
use native.Mathlib.Omega.{arith}
use post_bound.Base.Tests.{Bool-ext, ◌==◌}

pub record Key {ℓ} (K : Type ℓ) : Type ℓ where
  pub same : K → K → Bool
  pub same_refl : (a : K) → same a a ≡ true
  pub same_sym : (a b : K) → same a b ≡ true → same b a ≡ true
  pub same_trans : (a b c : K) → same a b ≡ true → same b c ≡ true → same a c ≡ true

-- `a == b`
abbrev pub same {ℓ} : {K : Type ℓ} ⦃key : Key K⦄ → K → K → Bool
same ⦃key⦄ = key.same

module _ {ℓ} {K : Type ℓ} ⦃key : Key K⦄ where
  pub same_left : (a b c : K) → same a b ≡ true → same a c ≡ same b c
  same_left a b c h =
      Bool-ext _ _ (λ p. key.same_trans b a c (key.same_sym a b h) p) (key.same_trans a b c h)

  pub same_right : (a b c : K) → same a b ≡ true → same c a ≡ same c b
  same_right a b c h =
      Bool-ext _ _ (λ p. key.same_trans c a b p h)
        (λ p. key.same_trans c b a p (key.same_sym a b h))

  pub same_comm : (a b : K) → same a b ≡ same b a
  same_comm a b = Bool-ext _ _ (key.same_sym a b) (key.same_sym b a)

-- Numbers are keys.
pub ==_refl : (a : ℕ) → (a == a) ≡ true
==_refl a = ground arith

pub ==_sym : (a b : ℕ) → (a == b) ≡ true → (b == a) ≡ true
==_sym a b h = ground arith

pub ==_trans : (a b c : ℕ) → (a == b) ≡ true → (b == c) ≡ true → (a == c) ≡ true
==_trans a b c h g = ground arith

instance abbrev pub number_key : Key ℕ
number_key = record {
  same = λ a b. a == b;
  same_refl = ==_refl;
  same_sym = ==_sym;
  same_trans = ==_trans;
}
