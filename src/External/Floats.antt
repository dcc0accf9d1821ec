-- ===== src/External/Floats.antt =====
-- Python's floats: the operations that the code uses, and `str` and `float` on them.
use ai_secure_collaboration.Prelude.{
  [], ℕ, ◌≡◌, Bool, false, ◌||◌, ◌==◌, Option, some, none, Str, has_code, any,
}

-- `[` and `]`
abbrev pub is_bracket : ℕ → Bool
is_bracket c = c == 91 || c == 93

pub record Floats : Type 1 where
  pub Float : Type 0
  pub of_nat : ℕ → Float
  pub plus : Float → Float → Float
  pub minus : Float → Float → Float
  pub times : Float → Float → Float
  pub over : Float → Float → Float
  -- `x ** 0.5`, `x > 0`, and `max`
  pub root : Float → Float
  pub is_positive : Float → Bool
  pub maximum : Float → Float → Float
  -- `str`, which gives no brackets and no comma, and `float`, where `none` is a ValueError
  pub show : Float → Str
  pub read : Str → Option Float
  pub read-show : (x : Float) → read (show x) ≡ some x
  pub has_code-show : (x : Float) → has_code 44 (show x) ≡ false
  pub any-show : (x : Float) → any is_bracket (show x) ≡ false
  pub read-nil : read [] ≡ none
