-- ===== src/External/Concrete/NearestFirst.antt =====
-- A vector store with natural numbers as distances: how far apart the lengths of two texts are, and
-- ORDER BY as an insertion sort.
use ai_secure_collaboration.Prelude.{
  ℕ, zero, suc, take, length-take, In-take, true, ◌+◌, ◌-◌, ◌≤◌, ◌≡◌, ◌↔◌, ◌⊎◌, refl, ap, ◌∙◌, inl,
  inr, Option, none, some, List, [], ◌∷◌, length, In, Str, arith, leb, leb→le, leb→lt, Bool-cases,
  if◌then◌else◌, take, In-take, length-take, true,
}
use ai_secure_collaboration.External.PgVector.{PgVector, Ascending}
use ai_secure_collaboration.External.Concrete.Tally.{natural_floats}

-- NULL counts as 0.
unfoldable pub size : Option ℕ → ℕ
size none = 0
size (some n) = n

unfoldable pub length_distance : Str → Str → Option ℕ
length_distance s t = some ((length s - length t) + (length t - length s))

module _ {A : Type 0} (key : A → Option ℕ) where
  unfoldable pub insert_near : A → List A → List A
  insert_near x [] = x ∷ []
  insert_near x (y ∷ ys) =
      let rest = insert_near x ys in
      if leb (size (key x)) (size (key y)) then x ∷ y ∷ ys else y ∷ rest

  unfoldable pub sort_near : List A → List A
  unfolding insert_near
  sort_near [] = []
  sort_near (x ∷ xs) = insert_near x (sort_near xs)

  insert_near_In : (x y : A) (ys : List A) → In y (insert_near x ys) ↔ ((y ≡ x) ⊎ In y ys)
  unfolding insert_near
  insert_near_In x y [] = (λ i. i, λ i. i)
  insert_near_In x y (z ∷ ys) =
      let ih = insert_near_In x y ys in
      elim (Bool-cases (leb (size (key x)) (size (key z)))) [
        | inl e ↦ rw e (λ i. i, λ i. i)
        | inr e ↦ rw e (
          λ i. elim i [
            | inl q ↦ inr (inl q)
            | inr r ↦ elim (ih.0 r) [ inl q ↦ inl q | inr r ↦ inr (inr r) ]
          ],
          λ i. elim i [
            | inl q ↦ inr (ih.1 (inl q))
            | inr r ↦ elim r [ inl q ↦ inl q | inr r ↦ inr (ih.1 (inr r)) ]
          ],
        )
      ]

  pub sort_near_In : (xs : List A) (y : A) → In y (sort_near xs) ↔ In y xs
  unfolding sort_near
  sort_near_In [] y = (λ i. i, λ i. i)
  sort_near_In (x ∷ xs) y =
      let ih = sort_near_In xs y in
      let (to, of) = insert_near_In x y (sort_near xs) in
      (
        λ i. elim (to i) [ inl q ↦ inl q | inr r ↦ inr (ih.0 r) ],
        λ i. elim i [ inl q ↦ of (inl q) | inr r ↦ of (inr (ih.1 r)) ],
      )

  length-insert_near : (x : A) (ys : List A) → length (insert_near x ys) ≡ suc (length ys)
  unfolding insert_near
  length-insert_near x [] = refl
  length-insert_near x (y ∷ ys) = elim (Bool-cases (leb (size (key x)) (size (key y)))) [
    | inl e ↦ rw e refl
    | inr e ↦ rw e (ap suc (length-insert_near x ys))
  ]

  pub length-sort_near : (xs : List A) → length (sort_near xs) ≡ length xs
  unfolding sort_near
  length-sort_near [] = refl
  length-sort_near (x ∷ xs) = length-insert_near x (sort_near xs) ∙ ap suc (length-sort_near xs)

abbrev pub NearLe : Option ℕ → Option ℕ → Type 0
NearLe a b = size a ≤ size b

module _ {A : Type 0} (key : A → Option ℕ) where
  insert_near-Ascending :
      (x : A) (ys : List A) → Ascending NearLe key ys → Ascending NearLe key (insert_near key x ys)
  unfolding insert_near
  insert_near-Ascending x [] a = tt
  insert_near-Ascending x (y ∷ []) a = elim (Bool-cases (leb (size (key x)) (size (key y)))) [
    | inl e ↦ rw e (leb→le _ _ e, tt)
    | inr e ↦ rw e (omega (arith, leb→lt _ _ e), tt)
  ]
  insert_near-Ascending x (y ∷ z ∷ ys) a =
      let ih = insert_near-Ascending x (z ∷ ys) a.1 in
      elim (Bool-cases (leb (size (key x)) (size (key y)))) [
        | inl e ↦ rw e (leb→le _ _ e, a)
        | inr e ↦ elim (Bool-cases (leb (size (key x)) (size (key z)))) [
          | inl f ↦ rw e (rw f (omega (arith, leb→lt _ _ e), (leb→le _ _ f, a.1)))
          | inr f ↦ rw e (rw f (a.0, rw f at ih))
        ]
      ]

  pub sort_near-Ascending : (xs : List A) → Ascending NearLe key (sort_near key xs)
  unfolding sort_near
  sort_near-Ascending [] = tt
  sort_near-Ascending (x ∷ xs) = insert_near-Ascending x (sort_near key xs) (sort_near-Ascending xs)

module _ {A : Type 0} where
  pub Ascending-take :
      {D : Type 0} (le : D → D → Type 0) (key : A → D) (n : ℕ) (xs : List A)
      → Ascending le key xs
      → Ascending le key (take n xs)
  Ascending-take le key zero xs a = tt
  Ascending-take le key (suc n) [] a = tt
  Ascending-take le key (suc zero) (x ∷ xs) a = tt
  Ascending-take le key (suc (suc n)) (x ∷ []) a = tt
  Ascending-take le key (suc (suc n)) (x ∷ y ∷ xs) a =
      (a.0, Ascending-take le key (suc n) (y ∷ xs) a.1)

-- Every row is scanned.
abbrev pub length_vectors : PgVector natural_floats
length_vectors = record {
  distance = length_distance;
  no_farther = NearLe;
  order_by = sort_near;
  order_by_In = sort_near_In;
  order_by_length = length-sort_near;
  order_by_Ascending = sort_near-Ascending;
  nearest = λ key limit xs. take limit (sort_near key xs);
  nearest_In = λ key limit xs x i. (sort_near_In key xs x).0 (In-take limit x (sort_near key xs) i);
  nearest_length = λ key limit xs. omega (arith, length-take limit (sort_near key xs));
  nearest_Ascending = λ key limit xs.
      Ascending-take NearLe key limit (sort_near key xs) (sort_near-Ascending key xs);
  is_exact = true;
  nearest_exact = λ key limit xs exact. refl;
}
