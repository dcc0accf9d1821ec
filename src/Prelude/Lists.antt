-- ===== src/Prelude/Lists.antt =====
-- Lists measured by native numbers, membership as a sum, and selection by a Boolean test.
use Prim.Native.Nat.{ℕ, zero, suc, ◌+◌, ◌-◌, ◌<◌, min}
use mathlib.Core.Path.{◌≡◌, refl, ap}
use mathlib.Core.Logic.{◌⊎◌, inl, inr}
use mathlib.Core.Bool.{Bool, true, false}
use mathlib.Core.Option.{Option, none, some}
use mathlib.Core.List.{List, [], ◌∷◌, ◌++◌, map, reverse, reverse-append}
use native.Mathlib.Nat.{zero-add}
use native.Mathlib.Omega.{arith}
use ai_secure_collaboration.Prelude.Tests.{Bool-cases, if◌then◌else◌}

module _ {ℓ} {A : Type ℓ} where
  abbrev pub length : List A → ℕ
  length [] = 0
  length (x ∷ xs) = suc (length xs)

  abbrev pub take : ℕ → List A → List A
  take zero xs = []
  take (suc n) [] = []
  take (suc n) (x ∷ xs) = x ∷ take n xs

  abbrev pub drop : ℕ → List A → List A
  drop zero xs = xs
  drop (suc n) [] = []
  drop (suc n) (x ∷ xs) = drop n xs

  abbrev pub get_elem? : List A → ℕ → Option A
  get_elem? [] i = none
  get_elem? (x ∷ xs) zero = some x
  get_elem? (x ∷ xs) (suc i) = get_elem? xs i

  pub length-append : (xs ys : List A) → length (xs ++ ys) ≡ length xs + length ys
  length-append [] ys = omega arith
  length-append (x ∷ xs) ys = omega (arith, length-append xs ys)

  pub length-take : (n : ℕ) (xs : List A) → length (take n xs) ≡ min n (length xs)
  length-take zero xs = omega arith
  length-take (suc n) [] = omega arith
  length-take (suc n) (x ∷ xs) = omega (arith, length-take n xs)

  pub length-drop : (n : ℕ) (xs : List A) → length (drop n xs) ≡ length xs - n
  length-drop zero xs = omega arith
  length-drop (suc n) [] = omega arith
  length-drop (suc n) (x ∷ xs) = omega (arith, length-drop n xs)

  unfoldable pub filter : (A → Bool) → List A → List A
  filter p [] = []
  filter p (x ∷ xs) = let rest = filter p xs in if p x then x ∷ rest else rest

  abbrev pub head? : List A → Option A
  head? [] = none
  head? (x ∷ xs) = some x

module _ {A : Type 0} where
  -- `x` occurs in the list.
  abbrev pub In : A → List A → Type 0
  In x [] = ⊥
  In x (y ∷ ys) = (x ≡ y) ⊎ In x ys

  pub In-filter : (p : A → Bool) (x : A) (xs : List A) → In x (filter p xs) → In x xs × (p x ≡ true)
  unfolding filter
  In-filter p x [] h = absurd h
  In-filter p x (y ∷ ys) h = elim (Bool-cases (p y)) [
    | inl e ↦ ground (arith, In-filter p x ys)
    | inr e ↦ ground (arith, In-filter p x ys)
  ]

  pub In-filter_of :
      (p : A → Bool) (x : A) (xs : List A) → In x xs → p x ≡ true → In x (filter p xs)
  unfolding filter
  In-filter_of p x [] h e = h
  In-filter_of p x (y ∷ ys) h e = ground (arith, In-filter_of p x ys)

  -- The first row that a test selects passes the test, and none is found only where none passes.
  pub head?-filter :
      (p : A → Bool) (x : A) (xs : List A) → head? (filter p xs) ≡ some x → In x xs × (p x ≡ true)
  unfolding filter
  head?-filter p x [] h = cc
  head?-filter p x (y ∷ ys) h = ground (arith, head?-filter p x ys)

  pub head?-filter-none :
      (p : A → Bool) (x : A) (xs : List A) → head? (filter p xs) ≡ none → In x xs → p x ≡ false
  unfolding filter
  head?-filter-none p x [] h i = absurd i
  head?-filter-none p x (y ∷ ys) h i = ground (arith, head?-filter-none p x ys)

  pub In-append_left : (x : A) (xs ys : List A) → In x xs → In x (xs ++ ys)
  In-append_left x [] ys h = absurd h
  In-append_left x (y ∷ xs) ys (inl e) = inl e
  In-append_left x (y ∷ xs) ys (inr h) = inr (In-append_left x xs ys h)

  pub In-append_right : (x : A) (xs ys : List A) → In x ys → In x (xs ++ ys)
  In-append_right x [] ys h = h
  In-append_right x (y ∷ xs) ys h = inr (In-append_right x xs ys h)

  pub In-append : (x : A) (xs ys : List A) → In x (xs ++ ys) → In x xs ⊎ In x ys
  In-append x [] ys h = inr h
  In-append x (y ∷ xs) ys (inl e) = inl (inl e)
  In-append x (y ∷ xs) ys (inr h) = elim (In-append x xs ys h) [
    | inl a ↦ inl (inr a)
    | inr b ↦ inr b
  ]

  pub In-reverse : (x : A) (xs : List A) → In x xs → In x (reverse xs)
  In-reverse x [] h = absurd h
  In-reverse x (y ∷ xs) (inl e) =
      rw (reverse-append (y ∷ []) xs) (In-append_right x (reverse xs) (y ∷ []) (inl e))
  In-reverse x (y ∷ xs) (inr h) =
      rw (reverse-append (y ∷ []) xs) (In-append_left x (reverse xs) (y ∷ []) (In-reverse x xs h))

  pub In-get_elem? : (c : A) (i : ℕ) (xs : List A) → get_elem? xs i ≡ some c → In c xs
  In-get_elem? c i [] h = cc
  In-get_elem? c zero (x ∷ xs) h = inl (cc)
  In-get_elem? c (suc i) (x ∷ xs) h = inr (In-get_elem? c i xs h)

  pub get_elem?-take : (n i : ℕ) (xs : List A) → i < n → get_elem? (take n xs) i ≡ get_elem? xs i
  get_elem?-take zero i xs h = elim h [ ]
  get_elem?-take (suc n) i [] h = refl
  get_elem?-take (suc n) zero (x ∷ xs) h = refl
  get_elem?-take (suc n) (suc i) (x ∷ xs) h = get_elem?-take n i xs (omega arith)

  pub get_elem?-drop : (n i : ℕ) (xs : List A) → get_elem? (drop n xs) i ≡ get_elem? xs (n + i)
  get_elem?-drop zero i xs = rw zero-add
  get_elem?-drop (suc n) i [] = refl
  get_elem?-drop (suc n) i (x ∷ xs) = rw (get_elem?-drop n i xs) (ground arith)

  pub get_elem?-length : (i : ℕ) (c : A) (xs : List A) → get_elem? xs i ≡ some c → i < length xs
  get_elem?-length i c [] h = cc
  get_elem?-length zero c (x ∷ xs) h = omega arith
  get_elem?-length (suc i) c (x ∷ xs) h = omega (arith, get_elem?-length i c xs h)

pub In-map :
    {A : Type 0} {B : Type 0} (f : A → B) (x : A) (xs : List A) → In x xs → In (f x) (map f xs)
In-map f x [] h = h
In-map f x (y ∷ xs) (inl e) = inl (ap f e)
In-map f x (y ∷ xs) (inr h) = inr (In-map f x xs h)

module _ {ℓ κ} {A : Type ℓ} where
  abbrev pub All : (A → Type κ) → List A → Type κ
  All P [] = Unit
  All P (x ∷ xs) = P x × All P xs

module _ {A : Type 0} where
  pub take-append : (xs ys : List A) → take (length xs) (xs ++ ys) ≡ xs
  take-append [] ys = refl
  take-append (x ∷ xs) ys = ap (λ r. x ∷ r) (take-append xs ys)

  pub drop-append : (xs ys : List A) → drop (length xs) (xs ++ ys) ≡ ys
  drop-append [] ys = refl
  drop-append (x ∷ xs) ys = drop-append xs ys

  pub In-take : (n : ℕ) (x : A) (xs : List A) → In x (take n xs) → In x xs
  In-take zero x xs i = absurd i
  In-take (suc n) x [] i = i
  In-take (suc n) x (y ∷ xs) (inl e) = inl e
  In-take (suc n) x (y ∷ xs) (inr i) = inr (In-take n x xs i)
