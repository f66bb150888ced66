-- ===== src/Base/Texts.antt =====
-- Identifiers as lists of code points.
use Prim.Native.Nat.{ℕ, ◌+◌}
use mathlib.Core.Path.{◌≡◌, refl}
use mathlib.Core.Bool.{Bool, true, false, ◌&&◌}
use mathlib.Core.List.{List, [], ◌∷◌, map}
use native.Mathlib.Omega.{arith}
use post_bound.Base.Tests.{leb, ◌==◌, if◌then◌else◌}
use post_bound.Base.Keys.{Key}

abbrev pub Text : Type 0
Text = List ℕ

-- `not s`
abbrev pub is_blank : Text → Bool
is_blank [] = true
is_blank (c ∷ s) = false

-- `str.lower` on one ASCII character.
unfoldable pub lower_char : ℕ → ℕ
lower_char c = if leb b'A' c && leb c b'Z' then c + 32 else c

unfoldable pub lower : Text → Text
unfolding lower_char
lower = map lower_char

unfoldable pub text_eq : Text → Text → Bool
text_eq [] [] = true
text_eq [] (d ∷ t) = false
text_eq (c ∷ s) [] = false
text_eq (c ∷ s) (d ∷ t) = c == d && text_eq s t

pub text_eq_refl : (s : Text) → text_eq s s ≡ true
unfolding text_eq
text_eq_refl [] = refl
text_eq_refl (c ∷ s) = ground (arith, text_eq_refl s)

pub eq_of_text_eq : (s t : Text) → text_eq s t ≡ true → s ≡ t
unfolding text_eq
eq_of_text_eq [] [] h = refl
eq_of_text_eq [] (d ∷ t) h = cc
eq_of_text_eq (c ∷ s) [] h = cc
eq_of_text_eq (c ∷ s) (d ∷ t) h = ground (arith, eq_of_text_eq s t)

pub lower_char_idem : (c : ℕ) → lower_char (lower_char c) ≡ lower_char c
unfolding lower_char
lower_char_idem c = ground arith

pub lower_idem : (s : Text) → lower (lower s) ≡ lower s
unfolding lower
lower_idem [] = refl
lower_idem (c ∷ s) = ground (arith, lower_char_idem c, lower_idem s)

pub text_eq-sym : (s t : Text) → text_eq s t ≡ true → text_eq t s ≡ true
text_eq-sym s t h = cc (eq_of_text_eq s t h, h)

pub text_eq_trans : (r s t : Text) → text_eq r s ≡ true → text_eq s t ≡ true → text_eq r t ≡ true
text_eq_trans r s t g h = cc (eq_of_text_eq r s g, h)

instance abbrev pub text_key : Key Text
text_key = record {
  same = text_eq;
  same_refl = text_eq_refl;
  same_sym = text_eq-sym;
  same_trans = text_eq_trans;
}
