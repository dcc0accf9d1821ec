-- ===== src/External/PgVector.antt =====
-- pgvector: the cosine distance `<=>` between two vectors in text, and ORDER BY it.
use ai_secure_collaboration.Prelude.{
  ◌≡◌, ◌↔◌, Option, List, [], ◌∷◌, length, In, Str, ℕ, ◌≤◌, Bool, true, take,
}
use ai_secure_collaboration.External.Floats.{Floats}

-- Each row is no farther than the next.
abbrev pub Ascending : {A : Type 0} {D : Type 0} → (D → D → Type 0) → (A → D) → List A → Type 0
Ascending le key [] = Unit
Ascending le key (x ∷ []) = Unit
Ascending le key (x ∷ y ∷ xs) = le (key x) (key y) × Ascending le key (y ∷ xs)

pub record PgVector (floats : Floats) : Type 1 where
  -- `none` is NULL.
  pub distance : Str → Str → Option floats.Float
  pub no_farther : Option floats.Float → Option floats.Float → Type 0
  pub order_by : {A : Type 0} → (A → Option floats.Float) → List A → List A
  pub order_by_In :
      {A : Type 0} (key : A → Option floats.Float) (xs : List A) (x : A)
      → In x (order_by key xs) ↔ In x xs
  pub order_by_length :
      {A : Type 0} (key : A → Option floats.Float) (xs : List A)
      → length (order_by key xs) ≡ length xs
  pub order_by_Ascending :
      {A : Type 0} (key : A → Option floats.Float) (xs : List A)
      → Ascending no_farther key (order_by key xs)
  -- ORDER BY the distance with a LIMIT. The HNSW index of the chunks is approximate, and the rows that it scans
  -- are filtered afterwards: a row may be missing, unless the whole table is scanned.
  pub nearest : {A : Type 0} → (A → Option floats.Float) → ℕ → List A → List A
  pub nearest_In :
      {A : Type 0} (key : A → Option floats.Float) (limit : ℕ) (xs : List A) (x : A)
      → In x (nearest key limit xs)
      → In x xs
  pub nearest_length :
      {A : Type 0} (key : A → Option floats.Float) (limit : ℕ) (xs : List A)
      → length (nearest key limit xs) ≤ limit
  pub nearest_Ascending :
      {A : Type 0} (key : A → Option floats.Float) (limit : ℕ) (xs : List A)
      → Ascending no_farther key (nearest key limit xs)
  pub is_exact : Bool
  pub nearest_exact :
      {A : Type 0} (key : A → Option floats.Float) (limit : ℕ) (xs : List A)
      → is_exact ≡ true
      → nearest key limit xs ≡ take limit (order_by key xs)
