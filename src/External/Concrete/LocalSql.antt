-- ===== src/External/Concrete/LocalSql.antt =====
-- A database as a value: a table is the list of its rows, and ORDER BY an insertion sort.
use ai_secure_collaboration.Prelude.{
  ℕ, suc, ◌<◌, ◌≡◌, ◌≢◌, ◌↔◌, ◌⊎◌, inl, inr, refl, sym, ap, ◌∙◌, Bool, true, false, not, Option,
  none, some, List, [], ◌∷◌, length, In, In-filter, In-filter_of, filter, arith, max, leb, leb→le,
  leb→lt, ◌==◌, ==_iff, if◌then◌else◌, Bool-cases,
}
use ai_secure_collaboration.External.Sql.{Schema, Sql, Descending}

module _ {A : Type 0} where
  -- One more than every id.
  unfoldable pub fresh_id : (A → ℕ) → List A → ℕ
  fresh_id id_of [] = 1
  fresh_id id_of (x ∷ xs) = max (suc (id_of x)) (fresh_id id_of xs)

  fresh_id-lt : (id_of : A → ℕ) (x : A) (xs : List A) → In x xs → id_of x < fresh_id id_of xs
  unfolding fresh_id
  fresh_id-lt id_of x [] i = absurd i
  fresh_id-lt id_of x (y ∷ xs) (inl e) = rw e (omega arith)
  fresh_id-lt id_of x (y ∷ xs) (inr i) = omega (arith, fresh_id-lt id_of x xs i)

  -- Some row cannot stand beside the new one.
  unfoldable pub clashes : (A → A → Bool) → A → List A → Bool
  clashes conflicts row [] = false
  clashes conflicts row (x ∷ xs) =
      let later = clashes conflicts row xs in if conflicts x row then true else later

  clashes-false :
      (conflicts : A → A → Bool) (row x : A) (xs : List A)
      → clashes conflicts row xs ≡ false
      → In x xs
      → conflicts x row ≡ false
  unfolding clashes
  clashes-false conflicts row x [] h i = absurd i
  clashes-false conflicts row x (y ∷ xs) h i = ground (arith, clashes-false conflicts row x xs)

  unfoldable pub insert_row : Schema A → (ℕ → A) → List A → Option (A × List A)
  unfolding fresh_id clashes
  insert_row schema make xs =
      let row = make (fresh_id schema.id_of xs) in
      if clashes schema.conflicts row xs then none else some (row, row ∷ xs)

  pub insert_row_law :
      (schema : Schema A) (make : ℕ → A) (t t' : List A) (row : A)
      → insert_row schema make t ≡ some (row, t')
      → (id : ℕ) × (row ≡ make id)
        × ((x : A) → In x t' ↔ ((x ≡ row) ⊎ In x t))
        × ((x : A) → In x t → (schema.id_of x ≢ id) × (schema.conflicts x row ≡ false))
  unfolding insert_row
  insert_row_law schema make t t' row h =
      let id = fresh_id schema.id_of t in
      elim (Bool-cases (clashes schema.conflicts (make id) t)) [
        | inl e ↦ cc (e, h)
        | inr e ↦
            let h' : ◌≡◌ {A = Option (A × List A)} (some (make id, make id ∷ t)) (some (row, t')) =
              rw e at h in
            let same : make id ≡ row = cc h' in
            let after : make id ∷ t ≡ t' = cc h' in
            (
              id,
              sym same,
              λ x. rw (← after, ← same) (λ i. i, λ i. i),
              λ x i. (
                λ q. absurd (omega (arith, fresh_id-lt schema.id_of x t i, q)),
                rw (← same) (clashes-false schema.conflicts (make id) x t e i),
              ),
            )
      ]

  unfoldable pub update_rows : Schema A → ℕ → (A → A) → List A → List A
  update_rows schema id change [] = []
  update_rows schema id change (x ∷ xs) =
      (if schema.id_of x == id then change x else x) ∷ update_rows schema id change xs

  pub update_rows_law :
      (schema : Schema A) (id : ℕ) (change : A → A) (t : List A) (x : A)
      → In x (update_rows schema id change t) ↔ (
          (In x t × (schema.id_of x ≢ id))
          ⊎ ((y : A) × In y t × (schema.id_of y ≡ id) × (x ≡ change y)))
  unfolding update_rows
  update_rows_law schema id change [] x = (λ i. absurd i, λ h. elim h [ inl a ↦ a.0 | inr b ↦ b.1 ])
  update_rows_law schema id change (z ∷ t) x =
      let ih = update_rows_law schema id change t x in
      elim (Bool-cases (schema.id_of z == id)) [
        | inl e ↦ rw e (
          λ i. elim i [
            | inl q ↦ inr (z, inl refl, (==_iff (schema.id_of z) id).0 e, q)
            | inr r ↦ elim (ih.0 r) [
              | inl a ↦ inl (inr a.0, a.1)
              | inr b ↦ inr (b.0, inr b.1, b.2, b.3)
            ]
          ],
          λ h. elim h [
            | inl a ↦ elim a.0 [
              | inl q ↦ absurd (a.1 (ap schema.id_of q ∙ (==_iff (schema.id_of z) id).0 e))
              | inr r ↦ inr (ih.1 (inl (r, a.1)))
            ]
            | inr b ↦ elim b.1 [
              | inl q ↦ inl (b.3 ∙ ap change q)
              | inr r ↦ inr (ih.1 (inr (b.0, r, b.2, b.3)))
            ]
          ],
        )
        | inr e ↦ rw e (
          λ i. elim i [
            | inl q ↦
                inl
                  (inl q, λ k. cc (e, (==_iff (schema.id_of z) id).1 (ap schema.id_of (sym q) ∙ k)))
            | inr r ↦ elim (ih.0 r) [
              | inl a ↦ inl (inr a.0, a.1)
              | inr b ↦ inr (b.0, inr b.1, b.2, b.3)
            ]
          ],
          λ h. elim h [
            | inl a ↦ elim a.0 [ inl q ↦ inl q | inr r ↦ inr (ih.1 (inl (r, a.1))) ]
            | inr b ↦ elim b.1 [
              | inl q ↦ cc (e, (==_iff (schema.id_of z) id).1 (ap schema.id_of (sym q) ∙ b.2))
              | inr r ↦ inr (ih.1 (inr (b.0, r, b.2, b.3)))
            ]
          ],
        )
      ]

  pub delete_law :
      (condition : A → Bool) (t : List A) (x : A)
      → In x (filter (λ r. not (condition r)) t) ↔ (In x t × (condition x ≡ false))
  delete_law condition t x = (
    λ i. let (j, e) = In-filter (λ r. not (condition r)) x t i in (j, ground (arith, e)),
    λ p. In-filter_of (λ r. not (condition r)) x t p.0 (ap not p.1),
  )

  unfoldable pub place : (A → ℕ) → A → List A → List A
  place key x [] = x ∷ []
  place key x (y ∷ ys) =
      let later = place key x ys in if leb (key y) (key x) then x ∷ y ∷ ys else y ∷ later

  unfoldable pub sort_desc : (A → ℕ) → List A → List A
  unfolding place
  sort_desc key [] = []
  sort_desc key (x ∷ xs) = place key x (sort_desc key xs)

  place-In : (key : A → ℕ) (z x : A) (xs : List A) → In z (place key x xs) ↔ ((z ≡ x) ⊎ In z xs)
  unfolding place
  place-In key z x [] = (λ i. i, λ i. i)
  place-In key z x (y ∷ ys) = elim (Bool-cases (leb (key y) (key x))) [
    | inl e ↦ rw e (λ i. i, λ i. i)
    | inr e ↦
        let ih = place-In key z x ys in
        rw e (
          λ i. elim i [
            | inl q ↦ inr (inl q)
            | inr r ↦ elim (ih.0 r) [ inl a ↦ inl a | inr b ↦ inr (inr b) ]
          ],
          λ i. elim i [
            | inl q ↦ inr (ih.1 (inl q))
            | inr r ↦ elim r [ inl a ↦ inl a | inr b ↦ inr (ih.1 (inr b)) ]
          ],
        )
  ]

  pub sort-In : (key : A → ℕ) (xs : List A) (z : A) → In z (sort_desc key xs) ↔ In z xs
  unfolding sort_desc
  sort-In key [] z = (λ i. i, λ i. i)
  sort-In key (x ∷ xs) z =
      let p = place-In key z x (sort_desc key xs) in
      let ih = sort-In key xs z in
      (
        λ i. elim (p.0 i) [ inl q ↦ inl q | inr r ↦ inr (ih.0 r) ],
        λ i. elim i [ inl q ↦ p.1 (inl q) | inr r ↦ p.1 (inr (ih.1 r)) ],
      )

  length-place : (key : A → ℕ) (x : A) (xs : List A) → length (place key x xs) ≡ suc (length xs)
  unfolding place
  length-place key x [] = refl
  length-place key x (y ∷ ys) = ground (arith, length-place key x ys)

  pub length-sort : (key : A → ℕ) (xs : List A) → length (sort_desc key xs) ≡ length xs
  unfolding sort_desc
  length-sort key [] = refl
  length-sort key (x ∷ xs) =
      omega (arith, length-place key x (sort_desc key xs), length-sort key xs)

  place-Descending :
      (key : A → ℕ) (x : A) (xs : List A) → Descending key xs → Descending key (place key x xs)
  unfolding place
  place-Descending key x [] d = tt
  place-Descending key x (y ∷ []) d = elim (Bool-cases (leb (key y) (key x))) [
    | inl e ↦ rw e (leb→le (key y) (key x) e, tt)
    | inr e ↦ rw e (omega (arith, leb→lt (key y) (key x) e), tt)
  ]
  place-Descending key x (y ∷ z ∷ zs) d = elim (Bool-cases (leb (key y) (key x))) [
    | inl e ↦ rw e (leb→le (key y) (key x) e, d)
    | inr e ↦ rw e (
        below (Bool-cases (leb (key z) (key x))) (leb→lt (key y) (key x) e)
          (place-Descending key x (z ∷ zs) d.1))
  ]
    where
      below :
          ((leb (key z) (key x) ≡ true) ⊎ (leb (key z) (key x) ≡ false))
          → key x < key y
          → Descending key (if leb (key z) (key x) then x ∷ z ∷ zs else z ∷ place key x zs)
          → Descending key (y ∷ (if leb (key z) (key x) then x ∷ z ∷ zs else z ∷ place key x zs))
      below (inl e) lt ih = rw e (omega (arith, lt), rw e at ih)
      below (inr e) lt ih = rw e (d.0, rw e at ih)

  pub sort-Descending : (key : A → ℕ) (xs : List A) → Descending key (sort_desc key xs)
  unfolding sort_desc
  sort-Descending key [] = tt
  sort-Descending key (x ∷ xs) = place-Descending key x (sort_desc key xs) (sort-Descending key xs)

pub update_local_law :
    {A : Type 0} (schema : Schema A) (id : ℕ) (change : A → A) (t t' : List A)
    → some (update_rows schema id change t) ≡ some t'
    → (x : A)
    → In x t' ↔ (
        (In x t × (schema.id_of x ≢ id))
        ⊎ ((y : A) × In y t × (schema.id_of y ≡ id) × (x ≡ change y)))
update_local_law schema id change t t' h x =
    let same : update_rows schema id change t ≡ t' = cc h in
    rw (← same) (update_rows_law schema id change t x)

abbrev pub local_sql : Sql
local_sql = record {
  Table = List;
  rows = λ t. t;
  insert = insert_row;
  insert_some = insert_row_law;
  update = λ schema id change t. some (update_rows schema id change t);
  update_some = λ schema id change t t' h x. update_local_law schema id change t t' h x;
  reloads = λ schema id t. true;
  delete = λ condition t. filter (λ r. not (condition r)) t;
  delete_In = delete_law;
  order_desc = sort_desc;
  order_desc_In = sort-In;
  order_desc_length = length-sort;
  order_desc_Descending = sort-Descending;
}
