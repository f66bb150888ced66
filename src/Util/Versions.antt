-- ===== src/Util/Versions.antt =====
-- `Version` of postbound/util/misc.py, by the list of its components. The parsing of strings is not
-- modelled.
use post_bound.Base.{
  Bool, true, false, not, ◌≡◌, ◌∙◌, arith, List, [], ◌∷◌, Option, none, some, length, ltb, leb,
  ◌==◌, if◌then◌else◌, ◌&&◌, ℤ, ltb_ℤ, eqb_ℤ, Result, ok, err, value_error, ◌⊎◌, inl, inr, ◌↔◌,
}

abbrev pub Version : Type 0
Version = List ℤ

-- `__init__` for a list of integers.
unfoldable pub of_list : List ℤ → Result Version
of_list [] = err value_error
of_list (v ∷ vs) = ok (v ∷ vs)

-- `major`, `minor` and `patch`.
unfoldable pub major : Version → Option ℤ
major [] = none
major (v ∷ vs) = some v

unfoldable pub minor : Version → Option ℤ
unfolding major
minor [] = none
minor (v ∷ vs) = major vs

unfoldable pub patch : Version → Option ℤ
unfolding minor
patch [] = none
patch (v ∷ vs) = minor vs

-- `__eq__`: the lengths are compared, then the components.
abbrev same_components : List ℤ → List ℤ → Bool
same_components (a ∷ us) (b ∷ ws) = eqb_ℤ a b && same_components us ws
same_components us ws = true

unfoldable pub version_eq : Version → Version → Bool
version_eq a b = if not (length a == length b) then false else same_components a b

-- The loop over the common components, with what is returned after it.
abbrev compare_components : Bool → List ℤ → List ℤ → Bool
compare_components otherwise (a ∷ us) (b ∷ ws) =
    let rest = compare_components otherwise us ws in
    if ltb_ℤ a b then true else if ltb_ℤ b a then false else rest
compare_components otherwise us ws = otherwise

-- `__le__`, `__lt__`, `__ge__` and `__gt__`
unfoldable pub version_le : Version → Version → Bool
version_le a b = compare_components (leb (length a) (length b)) a b

unfoldable pub version_lt : Version → Version → Bool
version_lt a b = compare_components (ltb (length a) (length b)) a b

unfoldable pub version_ge : Version → Version → Bool
unfolding version_lt
version_ge a b = not (version_lt a b)

unfoldable pub version_gt : Version → Version → Bool
unfolding version_le
version_gt a b = not (version_le a b)

-- The lexicographic order: a version is less than the longer versions that it begins, and otherwise
-- the first component that differs decides.
abbrev pub Less : List ℤ → List ℤ → Type 0
Less us [] = ⊥
Less [] (b ∷ ws) = Unit
Less (a ∷ us) (b ∷ ws) = (ltb_ℤ a b ≡ true) ⊎ ((a ≡ b) × Less us ws)

eqb_ℤ-sound : (a b : ℤ) → eqb_ℤ a b ≡ true → a ≡ b
eqb_ℤ-sound a b h = ground arith

eq_of_not_less : (a b : ℤ) → ltb_ℤ a b ≡ false → ltb_ℤ b a ≡ false → a ≡ b
eq_of_not_less a b h g = ground arith

eqb_ℤ_refl : (a : ℤ) → eqb_ℤ a a ≡ true
eqb_ℤ_refl a = ground arith

not_less_self : (a : ℤ) → ltb_ℤ a a ≡ false
not_less_self a = ground arith

less_asym : (a b : ℤ) → ltb_ℤ a b ≡ true → ltb_ℤ b a ≡ false
less_asym a b h = ground arith

less_trans : (a b c : ℤ) → ltb_ℤ a b ≡ true → ltb_ℤ b c ≡ true → ltb_ℤ a c ≡ true
less_trans a b c h g = ground arith

-- Version.__lt__ is the lexicographic order of the components, where a version is less than the
-- longer ones that it begins.
pub version_lt_iff : (a b : Version) → (version_lt a b ≡ true) ↔ Less a b
unfolding version_lt
version_lt_iff [] [] = ground arith
version_lt_iff [] (b ∷ ws) = ground arith
version_lt_iff (a ∷ us) [] = ground arith
version_lt_iff (a ∷ us) (b ∷ ws) =
    ground (arith, version_lt_iff us ws, eq_of_not_less a b, not_less_self a, less_asym a b)

-- Exactly one of a < b, a == b and b < a holds of versions, and a <= b holds exactly if b < a does
-- not.
pub versions_total :
    (a b : Version)
    → (version_le a b ≡ not (version_lt b a))
      × (version_eq a b ≡ (version_le a b && version_le b a))
      × ((version_lt a b && version_lt b a) ≡ false)
unfolding version_le version_lt version_eq
versions_total [] [] = ground arith
versions_total [] (b ∷ ws) = ground arith
versions_total (a ∷ us) [] = ground arith
versions_total (a ∷ us) (b ∷ ws) = ground (
  arith,
  versions_total us ws,
  eq_of_not_less a b,
  not_less_self a,
  less_asym a b,
  eqb_ℤ-sound a b,
  eqb_ℤ_refl a,
)

Less-trans : (a b c : Version) → Less a b → Less b c → Less a c
Less-trans us (b ∷ ws) [] g h = absurd h
Less-trans [] (b ∷ ws) (c ∷ zs) g h = tt
Less-trans (a ∷ us) (b ∷ ws) (c ∷ zs) (inl g) (inl h) = inl (less_trans a b c g h)
Less-trans (a ∷ us) (b ∷ ws) (c ∷ zs) (inl g) (inr (e, h)) = inl (cc (g, e))
Less-trans (a ∷ us) (b ∷ ws) (c ∷ zs) (inr (e, g)) (inl h) = inl (cc (h, e))
Less-trans (a ∷ us) (b ∷ ws) (c ∷ zs) (inr (e, g)) (inr (f, h)) =
    inr (e ∙ f, Less-trans us ws zs g h)
Less-trans us [] cs g h = absurd g

-- `<` is transitive.
pub version_lt_trans :
    (a b c : Version) → version_lt a b ≡ true → version_lt b c ≡ true → version_lt a c ≡ true
version_lt_trans a b c g h =
    (version_lt_iff a c).1 (Less-trans a b c ((version_lt_iff a b).0 g) ((version_lt_iff b c).0 h))
