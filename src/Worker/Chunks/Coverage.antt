-- ===== src/Worker/Chunks/Coverage.antt =====
-- The chunks of `chunk_text` hold the whole text.
use native.Mathlib.Nat.{le_trans}
use ai_secure_collaboration.Prelude.{
  ℕ, zero, suc, ◌+◌, ◌*◌, ◌≤◌, ◌<◌, ◌≡◌, refl, ap, inl, inr, false, not, some, List, [], ◌∷◌, map,
  length, filter, In, In-map, In-filter_of, In-strip, In-slice, In_not_empty, All, get_elem?,
  get_elem?-length, arith, ltb, leb, ltb→lt, ltb→le, leb→lt, leb→le, Str, is_empty, is_space, slice,
  Option-cases, Bool-cases,
}
use ai_secure_collaboration.Worker.Chunks.{
  chunk_end, next_start, cons_span, chunk_spans, chunk_of, chunk_text,
}
use ai_secure_collaboration.Worker.Chunks.Progress.{
  chunk_end-IsChunk, next_start_bounds, chunk_spans_total,
}

-- Some span has the position `i`.
abbrev pub Covers : ℕ → List (ℕ × ℕ) → Type 0
Covers i spans = (span : ℕ × ℕ) × In span spans × (span.0 ≤ i) × (i < span.1)

abbrev pub Fits : Str → ℕ → ℕ × ℕ → Type 0
Fits text chunk_size span =
    (span.0 < span.1) × (span.1 ≤ length text) × (span.1 ≤ span.0 + chunk_size)

module _ (text : Str) (chunk_size overlap : ℕ) (positive : 0 < chunk_size)
    (small : 2 * overlap ≤ chunk_size) where
  abbrev Covered : ℕ → List (ℕ × ℕ) → Type 0
  Covered start spans =
      All (Fits text chunk_size) spans × ((i : ℕ) → start ≤ i → i < length text → Covers i spans)

  chunk_spans_cover :
      (fuel start : ℕ) (spans : List (ℕ × ℕ))
      → chunk_spans fuel text chunk_size overlap start ≡ some spans
      → Covered start spans
  unfolding chunk_spans cons_span
  chunk_spans_cover zero start spans h = cc
  chunk_spans_cover (suc fuel) start spans h = elim (Bool-cases (ltb start (length text))) [
    | inr done ↦
        let e : [] ≡ spans = cc done in
        rw (← e) (tt, λ i a b. absurd (omega (arith, ltb→le start (length text) done)))
    | inl go ↦
        let end = chunk_end text chunk_size overlap start in
        let c = chunk_end-IsChunk text chunk_size overlap positive small start (ltb→lt _ _ go) in
        elim (Bool-cases (leb (length text) end)) [
          | inl last ↦
              let e : (start, end) ∷ [] ≡ spans = cc (go, last) in
              rw (← e) (
                ((c.forward, c.inside, c.short), tt),
                λ i a b. ((start, end), inl refl, a, omega (arith, leb→le (length text) end last)),
              )
          | inr more ↦
              let from = next_start overlap end in
              let n =
                next_start_bounds text chunk_size overlap positive small start end c
                  (leb→lt _ _ more) in
              elim (Option-cases (chunk_spans fuel text chunk_size overlap from)) [
                | inl empty ↦ cc (go, more, empty)
                | inr (rest, r) ↦
                    let ih = chunk_spans_cover fuel from rest r in
                    let e : (start, end) ∷ rest ≡ spans = cc (go, more, r) in
                    rw (← e) (
                      ((c.forward, c.inside, c.short), ih.0),
                      λ i a b. elim (Bool-cases (ltb i end)) [
                        | inl near ↦ ((start, end), inl refl, a, ltb→lt i end near)
                        | inr far ↦
                            let (span, m, p, q) = ih.1 i (le_trans n.1 (ltb→le i end far)) b in
                            (span, inr m, p, q)
                      ],
                    )
              ]
        ]
  ]

-- For a positive chunk size and an overlap of at most half of it, the loop of `chunk_text` ends,
-- each of its slices is not empty, lies in the text and is at most `chunk_size` long, and every
-- position of the text lies in one of the slices.
pub chunk_spans_cover_text :
    (text : Str) (chunk_size overlap : ℕ)
    → 0 < chunk_size
    → 2 * overlap ≤ chunk_size
    → (spans : List (ℕ × ℕ)) × (chunk_spans (suc (length text)) text chunk_size overlap 0
        ≡ some spans)
      × All (Fits text chunk_size) spans
      × ((i : ℕ) → i < length text → Covers i spans)
chunk_spans_cover_text text chunk_size overlap positive small =
    let (spans, e) =
      chunk_spans_total text chunk_size overlap positive small (suc (length text)) 0 (omega arith)
        (omega arith) in
    let (fit, all) =
      chunk_spans_cover text chunk_size overlap positive small (suc (length text)) 0 spans e in
    (spans, e, fit, λ i h. all i (omega arith) h)

-- For a positive chunk size and an overlap of at most half of it, `chunk_text` returns, and every
-- code point of the text that is not white space stands in one of the returned chunks.
pub chunk_text_keeps :
    (text : Str) (chunk_size overlap i c : ℕ)
    → 0 < chunk_size
    → 2 * overlap ≤ chunk_size
    → get_elem? text i ≡ some c
    → is_space c ≡ false
    → (chunks : List Str) × (chunk : Str) × (chunk_text text chunk_size overlap ≡ some chunks)
      × In chunk chunks
      × In c chunk
unfolding chunk_text is_empty chunk_of
chunk_text_keeps [] chunk_size overlap i c positive small at ink = cc
chunk_text_keeps (d ∷ t) chunk_size overlap i c positive small at ink =
    let text = d ∷ t in
    let (spans, e, _, all) = chunk_spans_cover_text text chunk_size overlap positive small in
    let (span, m, low, high) = all i (get_elem?-length i c text at) in
    let chunk = chunk_of text span in
    let found : In c chunk =
      In-strip c (slice text span.0 span.1) ink (In-slice text span.0 span.1 i c low high at) in
    let kept =
      In-filter_of (λ (k : Str). not (is_empty k)) chunk (map (chunk_of text) spans)
        (In-map (chunk_of text) span spans m) (ap not (In_not_empty c chunk found)) in
    (filter (λ k. not (is_empty k)) (map (chunk_of text) spans), chunk, rw e, kept, found)
