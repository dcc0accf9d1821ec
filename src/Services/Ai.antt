-- ===== src/Services/Ai.antt =====
-- The embeddings of `AIService` in backend/app/services/ai.py. The regular expression `\w+`, SHA-256 and
-- the HTTP request are arguments.
pub mod Bounds
pub mod Completion
mod Tests
use ai_secure_collaboration.Prelude.{
  ℕ, zero, suc, ◌+◌, ◌-◌, ◌*◌, Bool, true, false, not, ◌||◌, Option, none, some, List, [], ◌∷◌,
  ◌++◌, map, length, take, Str, codes, is_empty, strip, leb, ◌==◌, if◌then◌else◌,
}
use ai_secure_collaboration.External.Floats.{Floats}
use ai_secure_collaboration.External.Numerals.{Numerals}

abbrev pub dimensions : ℕ
dimensions = 768

-- `not self.api_key or self.api_key.strip() == ""`
pub is_offline : Option Str → Bool
is_offline none = true
is_offline (some api_key) = is_empty api_key || is_empty (strip api_key)

-- `int(h, 16)` on the digits that `hexdigest` gives
unfoldable pub hex_digit : ℕ → ℕ
hex_digit c = if leb 97 c then c - 87 else c - 48

unfoldable pub from_hex : ℕ → Str → ℕ
unfolding hex_digit
from_hex n [] = n
from_hex n (c ∷ h) = from_hex (n * 16 + hex_digit c) h

-- `h[:8]` as a number
pub salted_hash : (Str → Str) → Str → ℕ
salted_hash hexdigest salted = from_hex 0 (take 8 (hexdigest salted))

module _ (floats : Floats) where
  open floats use {Float, of_nat, plus, minus, times, over, root, is_positive}

  -- What the request ends with: an exception, or a status and the vector of the body, where it has one.
  pub data Reply : Type 0 where
    raised : Reply
    response : ℕ → Option (List Float) → Reply

  -- `[0.0] * dim`
  unfoldable pub zeros : ℕ → List Float
  zeros zero = []
  zeros (suc dim) = of_nat 0 ∷ zeros dim

  -- `(n / 4294967295.0) * 2.0 - 1.0`
  pub spread : ℕ → Float
  spread n = minus (times (over (of_nat n) (of_nat 4294967295)) (of_nat 2)) (of_nat 1)

  -- `sum(x*x for x in vector)`
  pub sum_squares : Float → List Float → Float
  sum_squares total [] = total
  sum_squares total (x ∷ vector) = sum_squares (plus total (times x x)) vector

  -- `vector = [x / norm for x in vector]` where the norm is positive
  unfoldable pub normalized : Float → List Float → List Float
  normalized norm vector = if is_positive norm then map (λ x. over x norm) vector else vector

  module _ (numerals : Numerals) (hexdigest : Str → Str) where
    -- The inner loop, from dimension `i` on.
    unfoldable pub add_word : Str → ℕ → List Float → List Float
    add_word word i [] = []
    add_word word i (x ∷ vector) =
        plus x (spread (salted_hash hexdigest (word ++ (codes ":" ++ numerals.str i))))
        ∷ add_word word (i + 1) vector

    unfoldable pub add_words : List Str → List Float → List Float
    unfolding add_word
    add_words [] vector = vector
    add_words (word ∷ words) vector = add_words words (add_word word 0 vector)

    -- `if not words: words = ["empty"]`
    unfoldable pub or_placeholder : List Str → List Str
    or_placeholder [] = codes "empty" ∷ []
    or_placeholder (word ∷ words) = word ∷ words

    module _ (words : Str → List Str) (lower : Str → Str) where
      -- `_generate_mock_embedding`
      unfoldable pub generate_mock_embedding : Str → ℕ → List Float
      unfolding zeros add_words or_placeholder normalized
      generate_mock_embedding text dim =
          let vector = add_words (or_placeholder (words (lower text))) (zeros dim) in
          normalized (root (sum_squares (of_nat 0) vector)) vector

      unfoldable pub of_size : Option (List Float) → List Float → List Float
      of_size none fallback = fallback
      of_size (some values) fallback = if length values == dimensions then values else fallback

      unfoldable pub from_reply : Reply → List Float → List Float
      unfolding of_size
      from_reply raised fallback = fallback
      from_reply (response status_code values) fallback =
          if status_code == 200 then of_size values fallback else fallback

      -- `generate_embedding`, with the client's `post`
      unfoldable pub generate_embedding : Option Str → (Str → Reply) → Str → List Float
      unfolding from_reply generate_mock_embedding
      generate_embedding api_key post text =
          let mock = generate_mock_embedding text dimensions in
          if is_offline api_key then mock else from_reply (post text) mock
