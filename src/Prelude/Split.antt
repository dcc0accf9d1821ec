-- ===== src/Prelude/Split.antt =====
-- Taking a text apart at a separator, putting parts together, and stripping given code points.
use Prim.Native.Nat.{ℕ}
use mathlib.Core.Path.{◌≡◌, refl}
use mathlib.Core.Bool.{Bool, true, false, ◌||◌}
use mathlib.Core.List.{List, [], ◌∷◌, ◌++◌, reverse, reverse-append, reverse-reverse}
use native.Mathlib.Omega.{arith}
use ai_secure_collaboration.Prelude.Tests.{◌==◌, ==_iff, if◌then◌else◌}
use ai_secure_collaboration.Prelude.Text.{Str}

-- `s.split(c)` for a separator of one code point
abbrev cons_first : ℕ → List Str → List Str
cons_first x [] = (x ∷ []) ∷ []
cons_first x (p ∷ ps) = (x ∷ p) ∷ ps

unfoldable pub split_on : ℕ → Str → List Str
split_on c [] = [] ∷ []
split_on c (x ∷ s) = let rest = split_on c s in if x == c then [] ∷ rest else cons_first x rest

-- `c.join(parts)` for a separator of one code point
unfoldable pub join : ℕ → List Str → Str
join c [] = []
join c (p ∷ []) = p
join c (p ∷ q ∷ ps) = p ++ (c ∷ join c (q ∷ ps))

-- `c in s`
unfoldable pub has_code : ℕ → Str → Bool
has_code c [] = false
has_code c (x ∷ s) = x == c || has_code c s

-- A part without the separator is split off whole.
pub split_on-append :
    (c : ℕ) (p s : Str) → has_code c p ≡ false → split_on c (p ++ (c ∷ s)) ≡ p ∷ split_on c s
unfolding split_on has_code
split_on-append c [] s h = rw ((==_iff c c).1 refl) refl
split_on-append c (x ∷ p) s h = ground (arith, split_on-append c p s)

pub split_on-last : (c : ℕ) (p : Str) → has_code c p ≡ false → split_on c p ≡ p ∷ []
unfolding split_on has_code
split_on-last c [] h = refl
split_on-last c (x ∷ p) h = ground (arith, split_on-last c p)

-- Whether a code point meets a test.
unfoldable pub any : (ℕ → Bool) → Str → Bool
any p [] = false
any p (x ∷ s) = p x || any p s

-- `s.lstrip(chars)` and `s.strip(chars)`, for the code points that meet a test
unfoldable pub lstrip_chars : (ℕ → Bool) → Str → Str
lstrip_chars p [] = []
lstrip_chars p (x ∷ s) = let rest = lstrip_chars p s in if p x then rest else x ∷ s

unfoldable pub strip_chars : (ℕ → Bool) → Str → Str
unfolding lstrip_chars
strip_chars p s = reverse (lstrip_chars p (reverse (lstrip_chars p s)))

pub any-append :
    (p : ℕ → Bool) (s t : Str) → any p s ≡ false → any p t ≡ false → any p (s ++ t) ≡ false
unfolding any
any-append p [] t h k = k
any-append p (x ∷ s) t h k = ground (arith, any-append p s t)

any-reverse : (p : ℕ → Bool) (s : Str) → any p s ≡ false → any p (reverse s) ≡ false
unfolding any
any-reverse p [] h = refl
any-reverse p (x ∷ s) h =
    rw (reverse-append (x ∷ []) s)
      (any-append p (reverse s) (x ∷ []) (any-reverse p s (ground arith)) (ground arith))

lstrip_chars-any : (p : ℕ → Bool) (s : Str) → any p s ≡ false → lstrip_chars p s ≡ s
unfolding lstrip_chars any
lstrip_chars-any p [] h = refl
lstrip_chars-any p (x ∷ s) h = ground arith

lstrip_chars-any_append :
    (p : ℕ → Bool) (x : ℕ) (s t : Str)
    → any p (x ∷ s) ≡ false
    → lstrip_chars p ((x ∷ s) ++ t) ≡ (x ∷ s) ++ t
unfolding lstrip_chars any
lstrip_chars-any_append p x s t h = ground arith

-- A text in a pair of code points to strip, none of which stands in it, is what is left.
pub strip_chars-enclosed :
    (p : ℕ → Bool) (a b : ℕ) (s : Str)
    → p a ≡ true
    → p b ≡ true
    → any p s ≡ false
    → strip_chars p (a ∷ (s ++ (b ∷ []))) ≡ s
unfolding strip_chars lstrip_chars any
strip_chars-enclosed p a b [] ha hb h = ground arith
strip_chars-enclosed p a b (x ∷ s) ha hb h = rw ha (
    rw (lstrip_chars-any_append p x s (b ∷ []) h) (
      rw (reverse-append (x ∷ s) (b ∷ [])) (
        rw hb (
          rw (lstrip_chars-any p (reverse (x ∷ s)) (any-reverse p (x ∷ s) h))
            (reverse-reverse (x ∷ s))))))
