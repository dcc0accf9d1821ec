-- ===== src/Prelude/Dict.antt =====
-- Python's `dict` and `set` with integer elements, as lists.
use Prim.Native.Nat.{ℕ}
use mathlib.Core.Path.{◌≡◌}
use mathlib.Core.Bool.{Bool, false, not, ◌||◌}
use mathlib.Core.Option.{Option, none, some}
use mathlib.Core.List.{List, [], ◌∷◌}
use native.Mathlib.Omega.{arith}
use ai_secure_collaboration.Prelude.Tests.{◌==◌, if◌then◌else◌}
use ai_secure_collaboration.Prelude.Lists.{filter}

-- `a in s`
unfoldable pub contains : ℕ → List ℕ → Bool
contains a [] = false
contains a (x ∷ s) = a == x || contains a s

-- `s.add(a)`
unfoldable pub add : ℕ → List ℕ → List ℕ
add a s = if contains a s then s else a ∷ s

-- `s.discard(a)`
unfoldable pub discard : ℕ → List ℕ → List ℕ
discard a s = filter (λ x. not (x == a)) s

-- No element stands twice.
abbrev pub Distinct : List ℕ → Type 0
Distinct [] = Unit
Distinct (x ∷ s) = (contains x s ≡ false) × Distinct s

pub contains-add : (a x : ℕ) (s : List ℕ) → contains x (add a s) ≡ (x == a || contains x s)
unfolding add contains
contains-add a x s = ground arith

pub contains-filter :
    (p : ℕ → Bool) (x : ℕ) (s : List ℕ)
    → contains x (filter p s) ≡ (if p x then contains x s else false)
unfolding contains filter
contains-filter p x [] = ground arith
contains-filter p x (y ∷ s) = ground (arith, contains-filter p x s)

pub contains-discard :
    (a x : ℕ) (s : List ℕ) → contains x (discard a s) ≡ (if x == a then false else contains x s)
unfolding discard
contains-discard a x s = ground (arith, contains-filter (λ (y : ℕ). not (y == a)) x s)

pub Distinct-add : (a : ℕ) (s : List ℕ) → Distinct s → Distinct (add a s)
unfolding add
Distinct-add a s d = ground arith

pub Distinct-filter : (p : ℕ → Bool) (s : List ℕ) → Distinct s → Distinct (filter p s)
unfolding filter
Distinct-filter p [] d = tt
Distinct-filter p (x ∷ s) d = ground (arith, Distinct-filter p s, contains-filter p x s)

-- A `dict` keyed by integers.
abbrev pub Dict {ℓ} : Type ℓ → Type ℓ
Dict V = List (ℕ × V)

module _ {ℓ} {V : Type ℓ} where
  -- `d.get(k)`
  unfoldable pub lookup : ℕ → Dict V → Option V
  lookup k [] = none
  lookup k ((j, v) ∷ d) = let later = lookup k d in if k == j then some v else later

  -- `d[k] = v`
  unfoldable pub insert : ℕ → V → Dict V → Dict V
  insert k v [] = (k, v) ∷ []
  insert k v ((j, w) ∷ d) =
      let later = insert k v d in if k == j then (k, v) ∷ d else (j, w) ∷ later

  -- `del d[k]`
  unfoldable pub erase : ℕ → Dict V → Dict V
  erase k [] = []
  erase k ((j, w) ∷ d) = let later = erase k d in if k == j then later else (j, w) ∷ later

  pub lookup-insert :
      (k j : ℕ) (v : V) (d : Dict V)
      → lookup j (insert k v d) ≡ (if j == k then some v else lookup j d)
  unfolding lookup insert
  lookup-insert k j v [] = ground arith
  lookup-insert k j v (e ∷ d) = ground (arith, lookup-insert k j v d)

  pub lookup-erase :
      (k j : ℕ) (d : Dict V) → lookup j (erase k d) ≡ (if j == k then none else lookup j d)
  unfolding lookup erase
  lookup-erase k j [] = ground arith
  lookup-erase k j (e ∷ d) = ground (arith, lookup-erase k j d)

  unfoldable pub keys : Dict V → List ℕ
  keys [] = []
  keys ((j, w) ∷ d) = j ∷ keys d

  pub contains-insert :
      (k j : ℕ) (v : V) (d : Dict V)
      → contains j (keys (insert k v d)) ≡ (j == k || contains j (keys d))
  unfolding keys insert contains
  contains-insert k j v [] = ground arith
  contains-insert k j v (e ∷ d) = ground (arith, contains-insert k j v d)

  pub contains-erase :
      (k j : ℕ) (d : Dict V)
      → contains j (keys (erase k d)) ≡ (if j == k then false else contains j (keys d))
  unfolding keys erase contains
  contains-erase k j [] = ground arith
  contains-erase k j (e ∷ d) = ground (arith, contains-erase k j d)

  -- A dictionary that has no key twice has none twice after an insertion and after a deletion.
  pub Distinct-insert :
      (k : ℕ) (v : V) (d : Dict V) → Distinct (keys d) → Distinct (keys (insert k v d))
  unfolding keys insert contains
  Distinct-insert k v [] h = ground arith
  Distinct-insert k v ((j, w) ∷ d) h =
      ground (arith, Distinct-insert k v d h.1, contains-insert k j v d)

  pub Distinct-erase : (k : ℕ) (d : Dict V) → Distinct (keys d) → Distinct (keys (erase k d))
  unfolding keys erase contains
  Distinct-erase k [] h = tt
  Distinct-erase k ((j, w) ∷ d) h = ground (arith, Distinct-erase k d h.1, contains-erase k j d)
