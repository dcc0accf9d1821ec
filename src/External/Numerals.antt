-- ===== src/External/Numerals.antt =====
-- Python's integers in text: `str`, and `int`, which is `number` here.
use ai_secure_collaboration.Prelude.{ℕ, ◌≡◌, false, Option, some, Str, is_empty, has_code}

pub record Numerals : Type 0 where
  pub str : ℕ → Str
  -- `none` is a ValueError, `some none` a negative number.
  pub number : Str → Option (Option ℕ)
  pub number-str : (n : ℕ) → number (str n) ≡ some (some n)
  pub str-nonempty : (n : ℕ) → is_empty (str n) ≡ false
  -- There is no colon in a number.
  pub has_code-str : (n : ℕ) → has_code 58 (str n) ≡ false
