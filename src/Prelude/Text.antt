-- ===== src/Prelude/Text.antt =====
-- Text as a list of code points, its comparison, and literals.
use Prim.Native.Nat.{ℕ, ◌+◌, ◌-◌, ◌≤◌, ◌<◌}
use Prim.Native.Char.{code}
use Prim.Native.String.{String}
use mathlib.Core.Path.{◌≡◌, refl}
use mathlib.Core.Logic.{◌↔◌, inl, inr}
use mathlib.Core.Bool.{Bool, true, false, ◌&&◌, ◌||◌}
use mathlib.Core.List.{List, [], ◌∷◌, ◌++◌, reverse}
use mathlib.Core.Option.{some}
use native.Mathlib.Omega.{arith}
use ai_secure_collaboration.Prelude.Tests.{◌==◌, leb, Bool-cases, if◌then◌else◌}
use ai_secure_collaboration.Prelude.Lists.{
  take, drop, In, get_elem?, In-reverse, In-get_elem?, get_elem?-take, get_elem?-drop,
}

-- A Python `str`, as its code points.
abbrev pub Str : Type 0
Str = List ℕ

-- A literal.
unfoldable pub codes : String → Str
codes String.[] = []
codes (String.◌∷◌ c s) = code c ∷ codes s

-- `a == b` on texts.
unfoldable pub str_eq : Str → Str → Bool
str_eq [] [] = true
str_eq (c ∷ s) (d ∷ t) = c == d && str_eq s t
str_eq _ _ = false

str_eq_sound : (s t : Str) → str_eq s t ≡ true → s ≡ t
unfolding str_eq
str_eq_sound [] [] h = refl
str_eq_sound [] (d ∷ t) h = cc
str_eq_sound (c ∷ s) [] h = cc
str_eq_sound (c ∷ s) (d ∷ t) h = ground (arith, str_eq_sound s t)

pub str_eq_refl : (s : Str) → str_eq s s ≡ true
unfolding str_eq
str_eq_refl [] = refl
str_eq_refl (c ∷ s) = ground (arith, str_eq_refl s)

pub str_eq_iff : (s t : Str) → (str_eq s t ≡ true) ↔ (s ≡ t)
str_eq_iff s t = (str_eq_sound s t, λ e. rw e (str_eq_refl t))

pub append_cancel : (p s t : Str) → p ++ s ≡ p ++ t → s ≡ t
append_cancel [] s t h = h
append_cancel (c ∷ p) s t h = append_cancel p s t (cc)

-- `c.isspace()` on one code point.
unfoldable pub is_space : ℕ → Bool
is_space c =
    (leb 9 c && leb c 13)
    || (leb 28 c && leb c 32)
    || c == 133
    || c == 160
    || c == 0x1680
    || (leb 0x2000 c && leb c 0x200a)
    || c == 0x2028
    || c == 0x2029
    || c == 0x202f
    || c == 0x205f
    || c == 0x3000

-- `s.lstrip()`
unfoldable pub lstrip : Str → Str
unfolding is_space
lstrip [] = []
lstrip (c ∷ s) = let rest = lstrip s in if is_space c then rest else c ∷ s

-- `s.strip()`
unfoldable pub strip : Str → Str
unfolding lstrip
strip s = reverse (lstrip (reverse (lstrip s)))

-- `s[i:j]` for `0 <= i`, `0 <= j`
unfoldable pub slice : Str → ℕ → ℕ → Str
slice s i j = take (j - i) (drop i s)

-- `not s`
unfoldable pub is_empty : Str → Bool
is_empty [] = true
is_empty (c ∷ s) = false

-- `s.startswith(p)`
unfoldable pub starts_with : Str → Str → Bool
starts_with s [] = true
starts_with [] (d ∷ p) = false
starts_with (c ∷ s) (d ∷ p) = c == d && starts_with s p

In-lstrip : (c : ℕ) (s : Str) → is_space c ≡ false → In c s → In c (lstrip s)
unfolding lstrip
In-lstrip c [] h i = i
In-lstrip c (d ∷ s) h i = elim (Bool-cases (is_space d)) [
  | inl e ↦ rw e (elim i [ inl q ↦ cc | inr r ↦ In-lstrip c s h r ])
  | inr e ↦ rw e i
]

-- Only white space is stripped.
pub In-strip : (c : ℕ) (s : Str) → is_space c ≡ false → In c s → In c (strip s)
unfolding strip
In-strip c s h i =
    In-reverse c (lstrip (reverse (lstrip s)))
      (In-lstrip c (reverse (lstrip s)) h (In-reverse c (lstrip s) (In-lstrip c s h i)))

the_index : (i k : ℕ) → i ≤ k → i + (k - i) ≡ k
the_index i k h = omega arith

-- The code points between two positions are in the slice.
pub In-slice :
    (text : Str) (i j k c : ℕ) → i ≤ k → k < j → get_elem? text k ≡ some c → In c (slice text i j)
unfolding slice
In-slice text i j k c h l e = In-get_elem? c (k - i) (take (j - i) (drop i text)) (
    rw (get_elem?-take (j - i) (k - i) (drop i text) (omega arith), get_elem?-drop i (k - i) text)
      (rw (the_index i k h) e))

pub In_not_empty : (c : ℕ) (s : Str) → In c s → is_empty s ≡ false
unfolding is_empty
In_not_empty c [] i = absurd i
In_not_empty c (d ∷ s) i = refl
