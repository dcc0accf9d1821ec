-- ===== src/External/Sql.antt =====
-- The database behind SQLAlchemy: tables, and what the statements of the program do to their rows.
-- The order of rows is the database's, except where ORDER BY fixes it.
use ai_secure_collaboration.Prelude.{
  ◌==◌, ==_iff, Bool-cases, inl, inr, ℕ, ◌≤◌, ◌≡◌, ◌≢◌, ◌↔◌, ◌⊎◌, Bool, false, Option, some, List,
  [], ◌∷◌, length, In,
}

-- The primary key of a table, and its other UNIQUE constraints: when two rows cannot stand together.
pub record Schema (A : Type 0) : Type 0 where
  pub id_of : A → ℕ
  pub conflicts : A → A → Bool

-- Later rows have no greater key.
abbrev pub Descending : {A : Type 0} → (A → ℕ) → List A → Type 0
Descending key [] = Unit
Descending key (x ∷ []) = Unit
Descending key (x ∷ y ∷ xs) = (key y ≤ key x) × Descending key (y ∷ xs)

pub record Sql : Type 1 where
  pub Table : Type 0 → Type 0
  -- SELECT with no condition
  pub rows : {A : Type 0} → Table A → List A
  -- INSERT of the row that the function makes of a fresh id; `none` is an IntegrityError.
  pub insert : {A : Type 0} → Schema A → (ℕ → A) → Table A → Option (A × Table A)
  pub insert_some :
      {A : Type 0} (schema : Schema A) (make : ℕ → A) (t t' : Table A) (row : A)
      → insert schema make t ≡ some (row, t')
      → (id : ℕ) × (row ≡ make id)
        × ((x : A) → In x (rows t') ↔ ((x ≡ row) ⊎ In x (rows t)))
        × ((x : A) → In x (rows t) → (schema.id_of x ≢ id) × (schema.conflicts x row ≡ false))
  -- UPDATE of the row with an id; `none` is an IntegrityError.
  pub update : {A : Type 0} → Schema A → ℕ → (A → A) → Table A → Option (Table A)
  pub update_some :
      {A : Type 0} (schema : Schema A) (id : ℕ) (change : A → A) (t t' : Table A)
      → update schema id change t ≡ some t'
      → (x : A)
      → In x (rows t') ↔ (
          (In x (rows t) × (schema.id_of x ≢ id))
          ⊎ ((y : A) × In y (rows t) × (schema.id_of y ≡ id) × (x ≡ change y)))
  -- Whether the SELECT of the row with an id, by which a session refreshes its object, goes through: the
  -- connection may fail, and another transaction may have deleted the row.
  pub reloads : {A : Type 0} → Schema A → ℕ → Table A → Bool
  -- DELETE of the rows that meet a condition
  pub delete : {A : Type 0} → (A → Bool) → Table A → Table A
  pub delete_In :
      {A : Type 0} (condition : A → Bool) (t : Table A) (x : A)
      → In x (rows (delete condition t)) ↔ (In x (rows t) × (condition x ≡ false))
  -- ORDER BY key DESC
  pub order_desc : {A : Type 0} → (A → ℕ) → List A → List A
  pub order_desc_In :
      {A : Type 0} (key : A → ℕ) (xs : List A) (x : A) → In x (order_desc key xs) ↔ In x xs
  pub order_desc_length :
      {A : Type 0} (key : A → ℕ) (xs : List A) → length (order_desc key xs) ≡ length xs
  pub order_desc_Descending :
      {A : Type 0} (key : A → ℕ) (xs : List A) → Descending key (order_desc key xs)

-- The rows that a deletion by a key leaves.
pub deleted_rows :
    (sql : Sql) {A : Type 0} (key : A → ℕ) (id : ℕ) (t : sql.Table A) (x : A)
    → In x (sql.rows (sql.delete (λ r. key r == id) t)) ↔ (In x (sql.rows t) × (key x ≢ id))
deleted_rows sql key id t x =
    let (kept, back) = sql.delete_In (λ r. key r == id) t x in
    let (same, test) = ==_iff (key x) id in
    (
      λ i. let (here, out) = kept i in (here, λ e. cc (test e, out)),
      λ i.
          back (i.0, elim (Bool-cases (key x == id)) [ inl e ↦ absurd (i.1 (same e)) | inr e ↦ e ]),
    )
