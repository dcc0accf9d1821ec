-- ===== src/External/Concrete/SortedSet.antt =====
-- A sorted set as an association list; an earlier entry hides a later one.
use ai_secure_collaboration.Prelude.{
  ℕ, ◌≤◌, ◌≡◌, ap, inl, inr, Bool, true, false, not, Option, none, some, List, [], ◌∷◌, In,
  In-filter, In-filter_of, filter, arith, Str, str_eq, str_eq_refl, str_eq_iff, leb, leb→le,
  if◌then◌else◌, Bool-cases,
}
use ai_secure_collaboration.External.Redis.{Apart}

abbrev pub ZSet : Type 0
ZSet = List (Str × ℕ)

unfoldable pub score : ZSet → Str → Option ℕ
score [] m = none
score ((j, c) ∷ z) m = let later = score z m in if str_eq m j then some c else later

abbrev pub other : Str → Str → Bool
other m j = not (str_eq j m)

unfoldable pub without : Str → ZSet → ZSet
without m [] = []
without m ((j, c) ∷ z) = let later = without m z in if str_eq j m then later else (j, c) ∷ later

unfoldable pub range : ℕ → ZSet → List Str
range now [] = []
range now ((j, c) ∷ z) =
    let later = filter (other j) (range now z) in if leb c now then j ∷ later else later

pub score-without :
    (m j : Str) (z : ZSet) → score (without m z) j ≡ (if str_eq j m then none else score z j)
unfolding score without
score-without m j [] = ground arith
score-without m j ((i, c) ∷ z) =
    ground (arith, score-without m j z, str_eq_iff i m, str_eq_iff j m, str_eq_iff j i)

Apart-filter : (p : Str → Bool) (xs : List Str) → Apart xs → Apart (filter p xs)
unfolding filter
Apart-filter p [] a = tt
Apart-filter p (x ∷ xs) a = elim (Bool-cases (p x)) [
  | inl e ↦ rw e (λ i. a.0 (In-filter p x xs i).0, Apart-filter p xs a.1)
  | inr e ↦ rw e (Apart-filter p xs a.1)
]

pub range-Apart : (now : ℕ) (z : ZSet) → Apart (range now z)
unfolding range
range-Apart now [] = tt
range-Apart now ((j, c) ∷ z) =
    let later = Apart-filter (other j) (range now z) (range-Apart now z) in
    elim (Bool-cases (leb c now)) [
      | inl e ↦ rw e (λ i. absurd (not_other (In-filter (other j) j (range now z) i).1), later)
      | inr e ↦ rw e later
    ]
  where
    not_other : other j j ≡ true → ⊥
    not_other h = cc (h, str_eq_refl j)

pub range_sound :
    (now : ℕ) (m : Str) (z : ZSet) → In m (range now z) → (c : ℕ) × (score z m ≡ some c) × (c ≤ now)
unfolding range score
range_sound now m [] i = absurd i
range_sound now m ((j, c) ∷ z) i = elim (Bool-cases (str_eq m j)) [
  | inl e ↦ elim (Bool-cases (leb c now)) [
    | inl l ↦ (c, rw e, leb→le c now l)
    | inr l ↦ cc (e, (In-filter (other j) m (range now z) (rw l at i)).1)
  ]
  | inr e ↦ let (d, s, l) = range_sound now m z (rest e i) in (d, rw e s, l)
]
  where
    rest :
        str_eq m j ≡ false
        → In m (
            if leb c now
            then j ∷ filter (other j) (range now z)
            else filter (other j) (range now z))
        → In m (range now z)
    rest e h = elim (Bool-cases (leb c now)) [
      | inl l ↦ elim (rw l at h) [
        | inl q ↦ cc (e, (str_eq_iff m j).1 q)
        | inr r ↦ (In-filter (other j) m (range now z) r).0
      ]
      | inr l ↦ (In-filter (other j) m (range now z) (rw l at h)).0
    ]

pub range_complete :
    (now : ℕ) (m : Str) (z : ZSet) (c : ℕ) → score z m ≡ some c → c ≤ now → In m (range now z)
unfolding range score
range_complete now m [] c s l = cc
range_complete now m ((j, d) ∷ z) c s l = elim (Bool-cases (str_eq m j)) [
  | inl e ↦ let near : leb d now ≡ true = ground arith in rw near (inl ((str_eq_iff m j).0 e))
  | inr e ↦
      let later : In m (filter (other j) (range now z)) =
        In-filter_of (other j) m (range now z) (range_complete now m z c (ground arith) l)
          (ap not e) in
      elim (Bool-cases (leb d now)) [ inl n ↦ rw n (inr later) | inr n ↦ rw n later ]
]
