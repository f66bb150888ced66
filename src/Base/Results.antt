-- ===== src/Base/Results.antt =====
-- Python's exceptions as values, and the options that a call may return.
use mathlib.Core.Bool.{Bool, true, false}
use mathlib.Core.Option.{Option, none, some}
use mathlib.Core.List.{List, [], ◌∷◌}
use post_bound.Base.Lists.{All}

-- The exception types that the modelled code raises.
pub data Error : Type 0 where
  value_error state_error type_error index_error assertion_error logic_error attribute_error
        unbound_error key_error unsupported_query unsupported_system :
      Error

pub data Result {ℓ} (A : Type ℓ) : Type ℓ where
  ok : A → Result A
  err : Error → Result A

infixl 5 ◌>>=◌
abbrev pub ◌>>=◌ {ℓ κ} : {A : Type ℓ} {B : Type κ} → Result A → (A → Result B) → Result B
ok a >>= f = f a
err e >>= f = err e

-- The call returned a value that satisfies `P`.
abbrev pub Returns {ℓ} : {A : Type ℓ} → (A → Type 0) → Result A → Type 0
Returns P (ok a) = P a
Returns P (err e) = ⊥

-- Whatever the call returns satisfies `P`.
abbrev pub OnOk {ℓ} : {A : Type ℓ} → (A → Type 0) → Result A → Type 0
OnOk P (ok a) = P a
OnOk P (err e) = Unit

abbrev pub is_some {ℓ} : {A : Type ℓ} → Option A → Bool
is_some none = false
is_some (some a) = true

pub OnOk->>= {ℓ κ} :
    {A : Type ℓ} {B : Type κ} (P : A → Type 0) (Q : B → Type 0) (m : Result A) {f : A → B}
    → OnOk P m
    → ((a : A) → P a → Q (f a))
    → OnOk Q (m >>= λ a. ok (f a))
OnOk->>= P Q (ok a) p step = step a p
OnOk->>= P Q (err e) p step = tt

pub OnOk-any {ℓ} : {A : Type ℓ} (r : Result A) → OnOk (λ a. Unit {0}) r
OnOk-any (ok a) = tt
OnOk-any (err e) = tt

pub OnOk-bind {ℓ κ} :
    {A : Type ℓ} {B : Type κ} (P : A → Type 0) (Q : B → Type 0) (m : Result A) (f : A → Result B)
    → OnOk P m
    → ((a : A) → P a → OnOk Q (f a))
    → OnOk Q (m >>= f)
OnOk-bind P Q (ok a) f p step = step a p
OnOk-bind P Q (err e) f p step = tt

pub Returns-bind {ℓ κ} :
    {A : Type ℓ} {B : Type κ} (P : A → Type 0) (Q : B → Type 0) (m : Result A) (f : A → Result B)
    → Returns P m
    → ((a : A) → P a → Returns Q (f a))
    → Returns Q (m >>= f)
Returns-bind P Q (ok a) f p step = step a p
Returns-bind P Q (err e) f p step = absurd p

pub Returns-map {ℓ} :
    {A : Type ℓ} (P Q : A → Type 0) (r : Result A)
    → ((a : A) → P a → Q a)
    → Returns P r
    → Returns Q r
Returns-map P Q (ok a) step p = step a p
Returns-map P Q (err e) step p = p

pub OnOk-map {ℓ} :
    {A : Type ℓ} (P Q : A → Type 0) (r : Result A) → ((a : A) → P a → Q a) → OnOk P r → OnOk Q r
OnOk-map P Q (ok a) step p = step a p
OnOk-map P Q (err e) step p = tt

-- A `for` loop whose body may raise.
unfoldable pub for_each {ℓ κ} :
    {A : Type ℓ} {S : Type κ} → (A → S → Result S) → List A → S → Result S
for_each body [] state = ok state
for_each body (x ∷ xs) state = body x state >>= λ next. for_each body xs next

-- A loop whose body raises or keeps a property of its state.
pub for_each-OnOk {ℓ κ} :
    {A : Type ℓ} {S : Type κ} (P : S → Type 0) (body : A → S → Result S) (xs : List A) (state : S)
    → ((x : A) (s : S) → P s → OnOk P (body x s))
    → P state
    → OnOk P (for_each body xs state)
unfolding for_each
for_each-OnOk P body [] state step h = h
for_each-OnOk P body (x ∷ xs) state step h =
    OnOk-bind P P (body x state) _ (step x state h) (λ next g. for_each-OnOk P body xs next step g)

-- A loop over elements with a property.
pub for_each-All {ℓ κ} :
    {A : Type ℓ} {S : Type κ} (Q : A → Type 0) (P : S → Type 0) (body : A → S → Result S)
    (xs : List A) (state : S)
    → ((x : A) (s : S) → Q x → P s → OnOk P (body x s))
    → All Q xs
    → P state
    → OnOk P (for_each body xs state)
unfolding for_each
for_each-All Q P body [] state step q h = h
for_each-All Q P body (x ∷ xs) state step (q, qs) h =
    OnOk-bind P P (body x state) _ (step x state q h)
      (λ next g. for_each-All Q P body xs next step qs g)
