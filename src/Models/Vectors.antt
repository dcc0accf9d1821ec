-- ===== src/Models/Vectors.antt =====
-- `PGVector` of backend/app/models/note.py, the column type of an embedding.
mod Tests
use ai_secure_collaboration.Prelude.{
  ℕ, ◌≡◌, refl, sym, ap, ◌∙◌, Bool, true, false, Option, none, some, List, [], ◌∷◌, ◌++◌, map, Str,
  arith, join, split_on, split_on-append, split_on-last, has_code, any, any-append, strip_chars,
  strip_chars-enclosed,
}
use ai_secure_collaboration.External.Floats.{Floats, is_bracket}

module _ (floats : Floats) where
  open floats use {Float, show, read}

  -- What Python holds for the column, and what the driver takes and gives.
  pub data Value : Type 0 where
    null : Value
    vector : List Float → Value
    text : Str → Value

  -- `bind_processor`
  pub bind : Value → Value
  bind null = null
  bind (vector xs) = text (91 ∷ (join 44 (map show xs) ++ (93 ∷ [])))
  bind (text s) = text s

  unfoldable pub cons_read : Option Float → Option (List Float) → Option (List Float)
  cons_read none xs = none
  cons_read (some x) none = none
  cons_read (some x) (some xs) = some (x ∷ xs)

  -- `[float(x) for x in parts]`
  unfoldable pub read_all : List Str → Option (List Float)
  unfolding cons_read
  read_all [] = some []
  read_all (p ∷ parts) = cons_read (read p) (read_all parts)

  unfoldable pub as_vector : Option (List Float) → Option Value
  as_vector none = none
  as_vector (some xs) = some (vector xs)

  -- `result_processor`; `none` is a ValueError.
  pub process_result : Value → Option Value
  unfolding read_all as_vector
  process_result null = some null
  process_result (text s) = as_vector (read_all (split_on 44 (strip_chars is_bracket s)))
  process_result (vector xs) = some (vector xs)

  -- What stands between the brackets has none, and is taken apart into the parts again.
  any-join : (xs : List Float) → any is_bracket (join 44 (map show xs)) ≡ false
  unfolding join any
  any-join [] = refl
  any-join (x ∷ []) = floats.any-show x
  any-join (x ∷ y ∷ xs) =
      any-append is_bracket (show x) (44 ∷ join 44 (map show (y ∷ xs))) (floats.any-show x)
        (any-join (y ∷ xs))

  split_on-join :
      (x : Float) (xs : List Float) → split_on 44 (join 44 (map show (x ∷ xs))) ≡ map show (x ∷ xs)
  unfolding join
  split_on-join x [] = split_on-last 44 (show x) (floats.has_code-show x)
  split_on-join x (y ∷ xs) =
      split_on-append 44 (show x) (join 44 (map show (y ∷ xs))) (floats.has_code-show x)
      ∙ ap (λ r. show x ∷ r) (split_on-join y xs)

  read_all-map : (xs : List Float) → read_all (map show xs) ≡ some xs
  unfolding read_all
  read_all-map [] = refl
  read_all-map (x ∷ xs) = rw (floats.read-show x, read_all-map xs) refl

  -- Of the two processors alone, not of the column between them, which keeps elements in single precision and
  -- takes no empty vector: the text that `bind` writes for a vector with an element is read as that vector, and
  -- the text that it writes for the empty vector is a ValueError.
  pub process_result-bind :
      ((x : Float) (xs : List Float)
        → process_result (bind (vector (x ∷ xs))) ≡ some (vector (x ∷ xs)))
      × (process_result (bind (vector [])) ≡ none)
  unfolding process_result bind join split_on any
  process_result-bind = (
    λ x xs.
        rw
          (strip_chars-enclosed is_bracket 91 93 (join 44 (map show (x ∷ xs))) refl refl
            (any-join (x ∷ xs)))
          (rw (split_on-join x xs, read_all-map (x ∷ xs)) refl),
    rw (strip_chars-enclosed is_bracket 91 93 [] refl refl refl) (rw floats.read-nil refl),
  )
