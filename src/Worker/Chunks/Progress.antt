-- ===== src/Worker/Chunks/Progress.antt =====
-- The loop of `chunk_text` ends: every round moves `start` forward.
use ai_secure_collaboration.Prelude.{
  ℕ, zero, suc, ◌+◌, ◌-◌, ◌*◌, ◌≤◌, ◌<◌, min, ◌≡◌, refl, inl, inr, not, Option, none, some, List,
  [], ◌∷◌, map, length, filter, arith, ltb, leb, ltb→lt, leb→lt, Str, is_empty, Option-cases,
  Bool-cases,
}
use ai_secure_collaboration.Worker.Chunks.{
  rfind_below, rfind, separators, find_boundary, or_else, chunk_end, next_start, cons_span,
  chunk_spans, chunk_of, chunk_text,
}

-- What `rfind` finds lies between its bounds.
rfind_below_bounds :
    (text separator : Str) (low high k pos : ℕ)
    → rfind_below text separator low high k ≡ some pos
    → (low ≤ pos) × (pos + length separator ≤ high)
unfolding rfind_below
rfind_below_bounds text separator low high zero pos h = cc
rfind_below_bounds text separator low high (suc k) pos h =
    ground (arith, rfind_below_bounds text separator low high k pos)

rfind_bounds :
    (text separator : Str) (low high pos : ℕ)
    → rfind text separator low high ≡ some pos
    → (low ≤ pos) × (pos + length separator ≤ high)
unfolding rfind
rfind_bounds text separator low high pos h =
    rfind_below_bounds text separator low high (suc (min high (length text)) - low) pos h

-- A boundary lies behind `low` and not behind `high`.
separator_bounds :
    (text separator : Str) (low high b : ℕ) (rest : Option ℕ)
    → 0 < length separator
    → (rest ≡ some b → (low < b) × (b ≤ high))
    → elim (rfind text separator low high) [
      | some pos ↦ some (pos + length separator)
      | none ↦ rest
    ]
      ≡ some b
    → (low < b) × (b ≤ high)
separator_bounds text separator low high b rest long ih h =
    elim (Option-cases (rfind text separator low high)) [
      | inl e ↦ ground arith
      | inr (pos, e) ↦ ground (arith, rfind_bounds text separator low high pos e)
    ]

find_boundary_bounds :
    (text : Str) (low high b : ℕ)
    → find_boundary text low high separators ≡ some b
    → (low < b) × (b ≤ high)
unfolding find_boundary
find_boundary_bounds text low high b = separator_bounds text _ low high b _ (omega arith) (
    separator_bounds text _ low high b _ (omega arith) (
      separator_bounds text _ low high b _ (omega arith)
        (separator_bounds text _ low high b _ (omega arith) (λ e. cc))))

-- The end of a chunk: inside the text, at most `chunk_size` away, and, where text is left, more
-- than `overlap` behind `start`.
pub record IsChunk (text : Str) (chunk_size overlap start end : ℕ) : Type 0 where
  pub forward : start < end
  pub inside : end ≤ length text
  pub short : end ≤ start + chunk_size
  pub past_overlap : end < length text → start + overlap < end

module _ (text : Str) (chunk_size overlap : ℕ) (positive : 0 < chunk_size)
    (small : 2 * overlap ≤ chunk_size) where
  pub chunk_end-IsChunk :
      (start : ℕ)
      → start < length text
      → IsChunk text chunk_size overlap start (chunk_end text chunk_size overlap start)
  unfolding chunk_end or_else
  chunk_end-IsChunk start h =
      let low = start + chunk_size - overlap in
      let high = min (start + chunk_size) (length text) in
      elim (Option-cases (find_boundary text low high separators)) [
        | inl e ↦ rw e (ground arith)
        | inr (b, e) ↦ rw e (ground (arith, find_boundary_bounds text low high b e))
      ]

  -- The next round starts behind this one, and not behind its end.
  pub next_start_bounds :
      (start end : ℕ)
      → IsChunk text chunk_size overlap start end
      → end < length text
      → (start < next_start overlap end) × (next_start overlap end ≤ end)
  unfolding next_start
  next_start_bounds start end c more = ground arith

  -- With more fuel than the text has code points left, the loop ends.
  pub chunk_spans_total :
      (fuel start : ℕ)
      → length text < fuel + start
      → 0 < fuel
      → (spans : List (ℕ × ℕ)) × (chunk_spans fuel text chunk_size overlap start ≡ some spans)
  unfolding chunk_spans cons_span
  chunk_spans_total zero start h pos = absurd (omega arith)
  chunk_spans_total (suc fuel) start h pos = elim (Bool-cases (ltb start (length text))) [
    | inr done ↦ ([], rw done)
    | inl go ↦
        let end = chunk_end text chunk_size overlap start in
        let c = chunk_end-IsChunk start (ltb→lt _ _ go) in
        elim (Bool-cases (leb (length text) end)) [
          | inl last ↦ ((start, end) ∷ [], rw (go, last))
          | inr more ↦
              let n = next_start_bounds start end c (leb→lt _ _ more) in
              let (spans, e) =
                chunk_spans_total fuel (next_start overlap end) (omega arith) (omega arith) in
              ((start, end) ∷ spans, rw (go, more, e))
        ]
  ]

-- For a positive chunk size and an overlap of at most half of it, `chunk_text` returns on every
-- text.
pub chunk_text_total :
    (text : Str) (chunk_size overlap : ℕ)
    → 0 < chunk_size
    → 2 * overlap ≤ chunk_size
    → (chunks : List Str) × (chunk_text text chunk_size overlap ≡ some chunks)
unfolding chunk_text is_empty
chunk_text_total [] chunk_size overlap positive small = ([], refl)
chunk_text_total (c ∷ text) chunk_size overlap positive small =
    let (spans, e) =
      chunk_spans_total (c ∷ text) chunk_size overlap positive small (suc (length (c ∷ text))) 0
        (omega arith) (omega arith) in
    (filter (λ c. not (is_empty c)) (map (chunk_of (c ∷ text)) spans), rw e)

-- Where a positive overlap is as long as the chunk at `start`, and that chunk does not end the
-- text, the loop comes back to `start` and never ends: no fuel is enough.
pub chunk_spans_stuck :
    (text : Str) (chunk_size overlap start fuel : ℕ)
    → 0 < overlap
    → start + overlap < length text
    → chunk_end text chunk_size overlap start ≡ start + overlap
    → chunk_spans fuel text chunk_size overlap start ≡ none
unfolding chunk_spans next_start cons_span
chunk_spans_stuck text chunk_size overlap start zero pos inside e = refl
chunk_spans_stuck text chunk_size overlap start (suc fuel) pos inside e =
    let back : start + overlap - overlap ≡ start = omega arith in
    ground (arith, back, chunk_spans_stuck text chunk_size overlap start fuel pos inside e)
