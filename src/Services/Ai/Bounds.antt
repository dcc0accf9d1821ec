-- ===== src/Services/Ai/Bounds.antt =====
-- The size of every embedding, and the range of the hashes behind it.
use ai_secure_collaboration.Prelude.{
  ℕ, zero, suc, ◌+◌, ◌*◌, ◌^◌, ◌≤◌, ◌<◌, ◌≡◌, ◌⊎◌, refl, ap, ◌∙◌, inl, inr, List, [], ◌∷◌, map,
  length, take, length-take, All, Option, some, none, Str, arith, Bool-cases, ==_iff, ◌==◌,
}
use native.Mathlib.Nat.{mul_assoc, mul-le-mul_right, pow-succ', le_trans}
use ai_secure_collaboration.External.Floats.{Floats}
use ai_secure_collaboration.External.Numerals.{Numerals}
use ai_secure_collaboration.Services.Ai.{
  dimensions, is_offline, hex_digit, from_hex, salted_hash, Reply, raised, response, zeros,
  normalized, add_word, add_words, or_placeholder, generate_mock_embedding, of_size, from_reply,
  generate_embedding,
}

-- `0` to `9` and `a` to `f`
abbrev pub IsHex : ℕ → Type 0
IsHex c = ((48 ≤ c) × (c ≤ 57)) ⊎ ((97 ≤ c) × (c ≤ 102))

hex_digit-lt : (c : ℕ) → IsHex c → hex_digit c < 16
unfolding hex_digit
hex_digit-lt c (inl h) = ground (arith, h)
hex_digit-lt c (inr h) = ground (arith, h)

grow : (n d p : ℕ) → d < 16 → (n * 16 + d + 1) * p ≤ (n + 1) * (16 * p)
grow n d p h = rw (← mul_assoc (n + 1) 16 p) (mul-le-mul_right p (omega (arith, h)))

from_hex-bound : (n : ℕ) (h : Str) → All IsHex h → from_hex n h + 1 ≤ (n + 1) * 16 ^ length h
unfolding from_hex
from_hex-bound n [] a = omega arith
from_hex-bound n (c ∷ h) a =
    let d = hex_digit c in
    let step = from_hex-bound (n * 16 + d) h a.1 in
    let wide = grow n d (16 ^ length h) (hex_digit-lt c a.0) in
    rw (pow-succ' 16 (length h)) (le_trans step wide)

All-take : (P : ℕ → Type 0) (n : ℕ) (s : Str) → All P s → All P (take n s)
All-take P zero s a = tt
All-take P (suc n) [] a = tt
All-take P (suc n) (c ∷ s) a = (a.0, All-take P n s a.1)

-- Eight hexadecimal digits are at most the number that a coordinate is divided by.
pub salted_hash_bound :
    (hexdigest : Str → Str) (salted : Str)
    → All IsHex (hexdigest salted)
    → 8 ≤ length (hexdigest salted)
    → salted_hash hexdigest salted ≤ 4294967295
unfolding salted_hash
salted_hash_bound hexdigest salted hex long =
    let h = take 8 (hexdigest salted) in
    let eight : length h ≡ 8 = rw (length-take 8 (hexdigest salted)) (omega (arith, long)) in
    let bound = from_hex-bound 0 h (All-take IsHex 8 (hexdigest salted) hex) in
    omega (arith, rw eight at bound)

module _ (floats : Floats) where
  open floats use {Float}

  length-map : (f : Float → Float) (xs : List Float) → length (map f xs) ≡ length xs
  length-map f [] = refl
  length-map f (x ∷ xs) = ap suc (length-map f xs)

  length-zeros : (dim : ℕ) → length (zeros floats dim) ≡ dim
  unfolding zeros
  length-zeros zero = refl
  length-zeros (suc dim) = ap suc (length-zeros dim)

  length-normalized : (norm : Float) (v : List Float) → length (normalized floats norm v) ≡ length v
  unfolding normalized
  length-normalized norm v = ground (arith, length-map (λ x. floats.over x norm) v)

  module _ (numerals : Numerals) (hexdigest : Str → Str) where
    length-add_word :
        (word : Str) (i : ℕ) (v : List Float)
        → length (add_word floats numerals hexdigest word i v) ≡ length v
    unfolding add_word
    length-add_word word i [] = refl
    length-add_word word i (x ∷ v) = ap suc (length-add_word word (i + 1) v)

    length-add_words :
        (words : List Str) (v : List Float)
        → length (add_words floats numerals hexdigest words v) ≡ length v
    unfolding add_words
    length-add_words [] v = refl
    length-add_words (word ∷ words) v =
        length-add_words words (add_word floats numerals hexdigest word 0 v)
        ∙ length-add_word word 0 v

    module _ (words : Str → List Str) (lower : Str → Str) where
      length-mock :
          (text : Str) (dim : ℕ)
          → length (generate_mock_embedding floats numerals hexdigest words lower text dim) ≡ dim
      unfolding generate_mock_embedding
      length-mock text dim =
          length-normalized _ _
          ∙ length-add_words (or_placeholder floats numerals hexdigest (words (lower text)))
              (zeros floats dim)
          ∙ length-zeros dim

      length-of_size :
          (values : Option (List Float)) (fallback : List Float)
          → length fallback ≡ dimensions
          → length (of_size floats numerals hexdigest words lower values fallback) ≡ dimensions
      unfolding of_size
      length-of_size none fallback h = h
      length-of_size (some values) fallback h = elim (Bool-cases (length values == dimensions)) [
        | inl e ↦ rw e ((==_iff (length values) dimensions).0 e)
        | inr e ↦ rw e h
      ]

      length-from_reply :
          (reply : Reply floats) (fallback : List Float)
          → length fallback ≡ dimensions
          → length (from_reply floats numerals hexdigest words lower reply fallback) ≡ dimensions
      unfolding from_reply
      length-from_reply raised fallback h = h
      length-from_reply (response status values) fallback h = elim (Bool-cases (status == 200)) [
        | inl e ↦ rw e (length-of_size values fallback h)
        | inr e ↦ rw e h
      ]

      -- Every embedding has 768 dimensions: with or without a key, whatever the service answers.
      pub length-generate_embedding :
          (api_key : Option Str) (post : Str → Reply floats) (text : Str)
          → length (generate_embedding floats numerals hexdigest words lower api_key post text)
            ≡ dimensions
      unfolding generate_embedding
      length-generate_embedding api_key post text =
          let mock =
            generate_mock_embedding floats numerals hexdigest words lower text dimensions in
          let sized = length-mock text dimensions in
          elim (Bool-cases (is_offline api_key)) [
            | inl e ↦ rw e sized
            | inr e ↦ rw e (length-from_reply (post text) mock sized)
          ]
