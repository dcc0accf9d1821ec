-- ===== src/Worker/Chunks/Tests.antt =====
-- Runs of `chunk_text`, and the theorems about it at concrete texts.
use ai_secure_collaboration.Prelude.{
  ℕ, suc, ◌<◌, ◌≡◌, refl, none, some, List, [], ◌∷◌, length, In, All, Str, codes, arith, is_space,
  is_empty, filter, strip,
}
use ai_secure_collaboration.Worker.Chunks.{chunk_spans, chunk_text, run_steps}
use ai_secure_collaboration.Worker.Chunks.Progress.{chunk_spans_stuck}
use ai_secure_collaboration.Worker.Chunks.Coverage.{
  Covers, Fits, chunk_spans_cover_text, chunk_text_keeps,
}

abbrev note : Str
unfolding codes
note = codes "One. Two three four"

abbrev narrow : Str
unfolding codes
narrow = codes "ab cdefgh"

chunk_text_note :
    chunk_text note 10 2 ≡ some (codes "One. Two" ∷ codes "o three fo" ∷ codes "four" ∷ [])
unfolding chunk_text run_steps is_empty filter strip codes
chunk_text_note = refl

chunk_spans_cover_text_example :
    (spans : List (ℕ × ℕ)) × (chunk_spans (suc (length note)) note 10 2 0 ≡ some spans)
    × All (Fits note 10) spans
    × ((i : ℕ) → i < length note → Covers i spans)
chunk_spans_cover_text_example = chunk_spans_cover_text note 10 2 (omega arith) (omega arith)

chunk_text_keeps_example :
    (chunks : List Str) × (chunk : Str) × (chunk_text note 10 2 ≡ some chunks)
    × In chunk chunks
    × In 84 chunk
unfolding codes is_space
chunk_text_keeps_example = chunk_text_keeps note 10 2 5 84 (omega arith) (omega arith) refl refl

chunk_spans_stuck_example : chunk_spans 1000 narrow 4 3 0 ≡ none
unfolding run_steps codes
chunk_spans_stuck_example = chunk_spans_stuck narrow 4 3 0 1000 (omega arith) (omega arith) refl
