-- ===== src/External/Concrete/Tally.antt =====
-- Numbers in text as a tally, and Python's numerals and floats on them: natural numbers that meet the
-- laws asked of floats.
use ai_secure_collaboration.Prelude.{
  if◌then◌else◌, ℕ, zero, suc, ◌+◌, ◌-◌, ◌*◌, ◌≡◌, refl, false, ◌==◌, ltb, max, Option, none, some,
  [], ◌∷◌, Str, has_code, any, is_empty,
}
use ai_secure_collaboration.External.Numerals.{Numerals}
use ai_secure_collaboration.External.Floats.{Floats, is_bracket}

unfoldable pub tally : ℕ → Str
tally zero = 49 ∷ []
tally (suc n) = 49 ∷ tally n

unfoldable pub suc_some : Option ℕ → Option ℕ
suc_some none = none
suc_some (some n) = some (suc n)

unfoldable pub count : Str → Option ℕ
unfolding suc_some
count [] = none
count (c ∷ []) = if c == 49 then some 0 else none
count (c ∷ d ∷ s) = let rest = suc_some (count (d ∷ s)) in if c == 49 then rest else none

pub count-tally : (n : ℕ) → count (tally n) ≡ some n
unfolding count tally
count-tally zero = refl
count-tally (suc zero) = refl
count-tally (suc (suc n)) = rw (count-tally (suc n)) refl

pub has_code-tally : (c n : ℕ) → (49 == c) ≡ false → has_code c (tally n) ≡ false
unfolding has_code tally
has_code-tally c zero h = rw h refl
has_code-tally c (suc n) h = rw (h, has_code-tally c n h) refl

pub any-tally : (n : ℕ) → any is_bracket (tally n) ≡ false
unfolding any tally
any-tally zero = refl
any-tally (suc n) = any-tally n

pub tally-nonempty : (n : ℕ) → is_empty (tally n) ≡ false
unfolding is_empty tally
tally-nonempty zero = refl
tally-nonempty (suc n) = refl

pub count-nil : count [] ≡ none
unfolding count
count-nil = refl

abbrev pub natural_floats : Floats
natural_floats = record {
  Float = ℕ;
  of_nat = λ n. n;
  plus = λ x y. x + y;
  minus = λ x y. x - y;
  times = λ x y. x * y;
  over = λ x y. x;
  root = λ x. x;
  is_positive = λ x. ltb 0 x;
  maximum = max;
  show = tally;
  read = count;
  read-show = count-tally;
  has_code-show = λ x. has_code-tally 44 x refl;
  any-show = any-tally;
  read-nil = count-nil;
}

abbrev pub natural : Option ℕ → Option (Option ℕ)
natural none = none
natural (some n) = some (some n)

unfoldable pub number : Str → Option (Option ℕ)
number s = natural (count s)

pub number-str : (n : ℕ) → number (tally n) ≡ some (some n)
unfolding number
number-str n = rw (number, count-tally n) refl

abbrev pub local_numerals : Numerals
local_numerals = record {
  str = tally;
  number = number;
  number-str = number-str;
  str-nonempty = tally-nonempty;
  has_code-str = λ n. has_code-tally 58 n refl;
}
