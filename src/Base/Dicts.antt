-- ===== src/Base/Dicts.antt =====
-- Python's dictionaries, in insertion order: an assignment to a key that is there keeps its place.
use mathlib.Core.Path.{◌≡◌, refl, subst}
use mathlib.Core.Bool.{Bool, true}
use mathlib.Core.Option.{Option, none, some}
use mathlib.Core.List.{List, [], ◌∷◌}
use native.Mathlib.Omega.{arith}
use mathlib.Core.Logic.{inl, inr}
use post_bound.Base.Tests.{if◌then◌else◌, Bool-cases}
use post_bound.Base.Keys.{Key, same, same_left, same_right, same_comm}

abbrev pub Dict {ℓ κ} : Type ℓ → Type κ → Type (ℓ ⊔ κ)
Dict K V = List (K × V)

-- `a` if it is there, and `b` if not.
abbrev pub or_else {ℓ} : {A : Type ℓ} → Option A → Option A → Option A
or_else none b = b
or_else (some a) b = some a

abbrev pub keep {ℓ} : {A : Type ℓ} → (A → Bool) → Option A → Option A
keep p none = none
keep p (some a) = if p a then some a else none

module _ {ℓ κ} {K : Type ℓ} {V : Type κ} ⦃key : Key K⦄ where
  -- `d.get(k)`
  unfoldable pub get : K → Dict K V → Option V
  get k [] = none
  get k ((j, v) ∷ d) = if same j k then some v else get k d

  -- `d[k] = v`
  unfoldable pub put : K → V → Dict K V → Dict K V
  put k v [] = (k, v) ∷ []
  put k v ((j, w) ∷ d) = if same j k then (j, v) ∷ d else (j, w) ∷ put k v d

  -- `d | e`
  unfoldable pub merge : Dict K V → Dict K V → Dict K V
  unfolding put
  merge d [] = d
  merge d ((k, v) ∷ e) = merge (put k v d) e

  -- `{k: v for k, v in d.items() if p(v)}`
  unfoldable pub restrict : (V → Bool) → Dict K V → Dict K V
  restrict p [] = []
  restrict p ((k, v) ∷ d) = if p v then (k, v) ∷ restrict p d else restrict p d

  -- Each key has one entry.
  abbrev pub IsDict : Dict K V → Type κ
  IsDict [] = Unit
  IsDict ((k, v) ∷ d) = (get k d ≡ none) × IsDict d

  -- A property of every entry.
  abbrev pub Entries {μ} : (K → V → Type μ) → Dict K V → Type μ
  Entries P [] = Unit
  Entries P ((k, v) ∷ d) = P k v × Entries P d

module _ {ℓ κ} {K : Type ℓ} {V : Type κ} ⦃key : Key K⦄ where
  pub get-same : (a b : K) (d : Dict K V) → same a b ≡ true → get a d ≡ get b d
  unfolding get
  get-same a b [] h = refl
  get-same a b ((j, v) ∷ d) h = rw (same_right a b j h, get-same a b d h)

  pub get-put :
      (k j : K) (v : V) (d : Dict K V) → get j (put k v d) ≡ (if same k j then some v else get j d)
  unfolding get put
  get-put k j v [] = refl
  get-put k j v ((i, w) ∷ d) = ground (arith, get-put k j v d, same_left i k j, same_right k j i)

  pub put-IsDict : (k : K) (v : V) (d : Dict K V) → IsDict d → IsDict (put k v d)
  unfolding put get
  put-IsDict k v [] h = (refl, tt)
  put-IsDict k v ((i, w) ∷ d) (fresh, h) = elim (Bool-cases (same i k)) [
    | inl old ↦ rw old (fresh, h)
    | inr new ↦ rw new (ground (arith, get-put k i v d, same_comm k i), put-IsDict k v d h)
  ]

  pub merge-IsDict : (d e : Dict K V) → IsDict d → IsDict (merge d e)
  unfolding merge
  merge-IsDict d [] h = h
  merge-IsDict d ((k, v) ∷ e) h = merge-IsDict (put k v d) e (put-IsDict k v d h)

  pub get-merge :
      (j : K) (d e : Dict K V) → IsDict e → get j (merge d e) ≡ or_else (get j e) (get j d)
  unfolding merge get
  get-merge j d [] h = refl
  get-merge j d ((k, v) ∷ e) (fresh, h) =
      ground (arith, get-merge j (put k v d) e h, get-put k j v d, get-same k j e)

  pub get-restrict :
      (p : V → Bool) (j : K) (d : Dict K V) → IsDict d → get j (restrict p d) ≡ keep p (get j d)
  unfolding restrict get
  get-restrict p j [] h = refl
  get-restrict p j ((k, v) ∷ d) (fresh, h) = ground (arith, get-restrict p j d h, get-same k j d)

  pub restrict-IsDict : (p : V → Bool) (d : Dict K V) → IsDict d → IsDict (restrict p d)
  unfolding restrict
  restrict-IsDict p [] h = tt
  restrict-IsDict p ((k, v) ∷ d) (fresh, h) = elim (Bool-cases (p v)) [
    | inl kept ↦ rw kept (ground (arith, get-restrict p k d h), restrict-IsDict p d h)
    | inr dropped ↦ rw dropped (restrict-IsDict p d h)
  ]

  pub restrict_all : (d : Dict K V) → restrict (λ v. true) d ≡ d
  unfolding restrict
  restrict_all [] = refl
  restrict_all ((k, v) ∷ d) = rw (restrict_all d)

-- A property of every entry that depends on the key only up to equality.
module _ {ℓ κ μ} {K : Type ℓ} {V : Type κ} ⦃key : Key K⦄ (P : K → V → Type μ)
    (stable : (a b : K) (v : V) → same a b ≡ true → P b v → P a v) where
  pub put-Entries : (k : K) (v : V) (d : Dict K V) → P k v → Entries P d → Entries P (put k v d)
  unfolding put
  put-Entries k v [] p h = (p, tt)
  put-Entries k v ((j, w) ∷ d) p (q, h) = elim (Bool-cases (same j k)) [
    | inl old ↦ rw old (stable j k v old p, h)
    | inr new ↦ rw new (q, put-Entries k v d p h)
  ]

  pub merge-Entries : (d e : Dict K V) → Entries P d → Entries P e → Entries P (merge d e)
  unfolding merge
  merge-Entries d [] h g = h
  merge-Entries d ((k, v) ∷ e) h (p, g) = merge-Entries (put k v d) e (put-Entries k v d p h) g

  pub get-Entries : (k : K) (v : V) (d : Dict K V) → Entries P d → get k d ≡ some v → P k v
  unfolding get
  get-Entries k v [] h e = cc
  get-Entries k v ((j, w) ∷ d) (p, h) e = elim (Bool-cases (same j k)) [
    | inl old ↦
        let found : some w ≡ some v = rw old at e in
        stable k j v (key.same_sym j k old) (subst (P j) (cc) p)
    | inr new ↦ get-Entries k v d h (rw new at e)
  ]

module _ {ℓ κ μ} {K : Type ℓ} {V : Type κ} ⦃key : Key K⦄ (P : K → V → Type μ) where
  pub restrict-Entries : (p : V → Bool) (d : Dict K V) → Entries P d → Entries P (restrict p d)
  unfolding restrict
  restrict-Entries p [] h = tt
  restrict-Entries p ((k, v) ∷ d) (q, h) = elim (Bool-cases (p v)) [
    | inl kept ↦ rw kept (q, restrict-Entries p d h)
    | inr dropped ↦ rw dropped (restrict-Entries p d h)
  ]
