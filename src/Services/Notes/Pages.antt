-- ===== src/Services/Notes/Pages.antt =====
-- The pages of a workspace's notes.
use ai_secure_collaboration.Prelude.{
  ℕ, zero, suc, ◌≡◌, ◌≤◌, sym, inr, true, In, arith, Option, Str, List, [], ◌∷◌, Bool, length, take,
  drop, filter, min, ◌++◌, ◌+◌, ◌-◌, refl, ap, In-filter, length-drop, length-take, length-take,
  In-take, ◌↔◌, In-filter_of,
}
use native.Mathlib.Nat.{zero-add, suc-add}
use ai_secure_collaboration.External.Sql.{Sql, Descending}
use ai_secure_collaboration.Models.{Note, Database}
use ai_secure_collaboration.Services.Notes.{get_paginated_notes, page_condition}

module _ {A : Type 0} where
  Descending-tail :
      (key : A → ℕ) (x : A) (xs : List A) → Descending key (x ∷ xs) → Descending key xs
  Descending-tail key x [] d = tt
  Descending-tail key x (y ∷ xs) d = d.1

  -- Rows that stand in order stand in order without the first ones, and so do the first ones.
  Descending-drop :
      (key : A → ℕ) (n : ℕ) (xs : List A) → Descending key xs → Descending key (drop n xs)
  Descending-drop key zero xs d = d
  Descending-drop key (suc n) [] d = tt
  Descending-drop key (suc n) (x ∷ xs) d = Descending-drop key n xs (Descending-tail key x xs d)

  pub Descending-take :
      (key : A → ℕ) (n : ℕ) (xs : List A) → Descending key xs → Descending key (take n xs)
  Descending-take key zero xs d = tt
  Descending-take key (suc n) [] d = tt
  Descending-take key (suc zero) (x ∷ xs) d = tt
  Descending-take key (suc (suc n)) (x ∷ []) d = tt
  Descending-take key (suc (suc n)) (x ∷ y ∷ xs) d = (d.0, Descending-take key (suc n) (y ∷ xs) d.1)

  In-drop : (n : ℕ) (x : A) (xs : List A) → In x (drop n xs) → In x xs
  In-drop zero x xs i = i
  In-drop (suc n) x [] i = i
  In-drop (suc n) x (y ∷ xs) i = inr (In-drop n x xs i)

  take-nil : (n : ℕ) → take {A = A} n [] ≡ []
  take-nil zero = refl
  take-nil (suc n) = refl

  drop-nil : (n : ℕ) → drop {A = A} n [] ≡ []
  drop-nil zero = refl
  drop-nil (suc n) = refl

  take-add : (m n : ℕ) (xs : List A) → take (m + n) xs ≡ take m xs ++ take n (drop m xs)
  take-add zero n xs = rw zero-add
  take-add (suc m) n [] = rw (suc-add m n) (sym (take-nil n))
  take-add (suc m) n (x ∷ xs) = rw (suc-add m n) (ap (λ r. x ∷ r) (take-add m n xs))

  drop-add : (m n : ℕ) (xs : List A) → drop (m + n) xs ≡ drop n (drop m xs)
  drop-add zero n xs = rw zero-add
  drop-add (suc m) n [] = rw (suc-add m n) (sym (drop-nil n))
  drop-add (suc m) n (x ∷ xs) = rw (suc-add m n) (drop-add m n xs)

module _ (sql : Sql) (lower : Str → Str) (like : Str → Str → Bool) (workspace_id : ℕ)
    (tag search : Option Str) (d : Database sql) where
  open sql use {rows}

  -- What a page of the notes holds.
  pub record Page (skip limit : ℕ) (items : List Note) (total : ℕ) : Type 0 where
    pub at_most : length items ≤ limit
    pub within :
        (n : Note)
        → In n items
        → In n (rows d.notes)
          × (n.workspace_id ≡ workspace_id)
          × (page_condition sql lower like workspace_id tag search n ≡ true)
    pub newest_first : Descending (λ n. n.created_at) items
    pub counted :
        total
        ≡ length (filter (page_condition sql lower like workspace_id tag search) (rows d.notes))
    pub size : length items ≡ min limit (total - skip)
    pub window :
        (all : List Note) × Descending (λ n. n.created_at) all
        × ((n : Note)
            → In n all ↔ (
                In n (rows d.notes)
                × (page_condition sql lower like workspace_id tag search n ≡ true)))
        × (total ≡ length all)
        × (items ≡ take limit (drop skip all))

  -- All stored notes that meet the workspace, the search and the tag stand in one list, newest first; the
  -- total is its length, and the page is the window of it that leaves out the first `skip` notes and has at
  -- most `limit`. So a page has as many notes as the total leaves after `skip`, up to `limit`.
  pub get_paginated_notes-Page :
      (skip limit : ℕ)
      → let page = get_paginated_notes sql lower like workspace_id skip limit tag search d in
        Page skip limit page.0 page.1
  unfolding get_paginated_notes page_condition
  get_paginated_notes-Page skip limit =
      let found = filter (page_condition sql lower like workspace_id tag search) (rows d.notes) in
      let ordered = sql.order_desc (λ n. n.created_at) found in
      let sized : length (take limit (drop skip ordered)) ≡ min limit (length found - skip) =
        rw (length-take limit (drop skip ordered)) (
          rw (length-drop skip ordered)
            (rw (sql.order_desc_length (λ n. n.created_at) found) refl)) in
      record {
        at_most = omega (arith, sized);
        within = λ n i.
            let shown = In-drop skip n ordered (In-take limit n (drop skip ordered) i) in
            let (stored, meets) =
              In-filter (page_condition sql lower like workspace_id tag search) n (rows d.notes)
                ((sql.order_desc_In (λ n. n.created_at) found n).0 shown) in
            (stored, ground arith, meets);
        newest_first =
            Descending-take (λ n. n.created_at) limit (drop skip ordered)
              (Descending-drop (λ n. n.created_at) skip ordered
                (sql.order_desc_Descending (λ n. n.created_at) found));
        counted = refl;
        size = sized;
        window = (
          ordered,
          sql.order_desc_Descending (λ n. n.created_at) found,
          λ n. (
            λ i.
                In-filter (page_condition sql lower like workspace_id tag search) n (rows d.notes)
                  ((sql.order_desc_In (λ n. n.created_at) found n).0 i),
            λ (i, meets). (sql.order_desc_In (λ n. n.created_at) found n).1 (
                In-filter_of (page_condition sql lower like workspace_id tag search) n
                  (rows d.notes) i meets),
          ),
          sym (sql.order_desc_length (λ n. n.created_at) found),
          refl,
        );
      }

  -- Two pages that follow on each other are one page of both sizes: no matching note is missed or
  -- repeated between them.
  pub pages_join :
      (skip first second : ℕ)
      → get_paginated_notes sql lower like workspace_id skip (first + second) tag search d ≡ (
        (get_paginated_notes sql lower like workspace_id skip first tag search d).0
            ++ (get_paginated_notes sql lower like workspace_id
                (skip + first)
                second
                tag
                search
                d).0,
        (get_paginated_notes sql lower like workspace_id skip first tag search d).1,
      )
  unfolding get_paginated_notes
  pages_join skip first second =
      let ordered =
        sql.order_desc (λ n. n.created_at)
          (filter (page_condition sql lower like workspace_id tag search) (rows d.notes)) in
      rw (take-add first second (drop skip ordered)) (rw (drop-add skip first ordered) refl)
