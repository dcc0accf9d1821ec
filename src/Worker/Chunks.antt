-- ===== src/Worker/Chunks.antt =====
-- `chunk_text` of backend/app/workers/worker.py. Texts are lists of code points, and the offsets
-- stay natural numbers because every call has `2 * overlap <= chunk_size`.
pub mod Progress
pub mod Coverage
mod Tests
use ai_secure_collaboration.Prelude.{
  ℕ, zero, suc, ◌+◌, ◌-◌, min, Bool, true, false, not, ◌&&◌, Option, none, some, List, [], ◌∷◌, map,
  length, filter, ltb, leb, if◌then◌else◌, Str, codes, str_eq, strip, slice, is_empty,
}

-- `text.rfind(separator, low, high)`: the candidates `low + k`, from the last one down.
pub rfind_below : Str → Str → ℕ → ℕ → ℕ → Option ℕ
rfind_below text separator low high zero = none
rfind_below text separator low high (suc k) =
    let pos = low + k in
    let rest = rfind_below text separator low high k in
    if leb (pos + length separator) high
      && str_eq (slice text pos (pos + length separator)) separator
    then some pos
    else rest

pub rfind : Str → Str → ℕ → ℕ → Option ℕ
unfolding rfind_below
rfind text separator low high =
    rfind_below text separator low high (suc (min high (length text)) - low)

-- `[". ", "\n\n", "\n", " "]`
abbrev pub separators : List Str
separators = (46 ∷ 32 ∷ []) ∷ (10 ∷ 10 ∷ []) ∷ (10 ∷ []) ∷ (32 ∷ []) ∷ []

-- The loop over the separators, which breaks at the first one that is found.
pub find_boundary : Str → ℕ → ℕ → List Str → Option ℕ
find_boundary text low high [] = none
find_boundary text low high (separator ∷ rest) = elim (rfind text separator low high) [
  | some pos ↦ some (pos + length separator)
  | none ↦ find_boundary text low high rest
]

pub or_else : Option ℕ → ℕ → ℕ
or_else (some boundary) end = boundary
or_else none end = end

-- Where the chunk that begins at `start` ends.
pub chunk_end : Str → ℕ → ℕ → ℕ → ℕ
unfolding or_else
chunk_end text chunk_size overlap start =
    let end = min (start + chunk_size) (length text) in
    if ltb end (length text)
    then or_else (find_boundary text (start + chunk_size - overlap) end separators) end
    else end

-- `start = end - overlap`, and `end` where that does not lie before `end`.
-- A difference below 0, for an overlap that is longer than `end`, is 0 here and negative in Python; for an
-- overlap of at most half of the chunk size there is none.
pub next_start : ℕ → ℕ → ℕ
next_start overlap end = let start = end - overlap in if leb end start then end else start

pub cons_span : ℕ × ℕ → Option (List (ℕ × ℕ)) → Option (List (ℕ × ℕ))
cons_span span none = none
cons_span span (some spans) = some (span ∷ spans)

-- The `while` loop, with the slices `text[start:end]` as pairs; `none` is fuel that ran out.
pub chunk_spans : ℕ → Str → ℕ → ℕ → ℕ → Option (List (ℕ × ℕ))
chunk_spans zero text chunk_size overlap start = none
chunk_spans (suc fuel) text chunk_size overlap start =
    let end = chunk_end text chunk_size overlap start in
    let rest = chunk_spans fuel text chunk_size overlap (next_start overlap end) in
    let more = cons_span (start, end) rest in
    if ltb start (length text)
    then (if leb (length text) end then some ((start, end) ∷ []) else more)
    else some []

-- `text[start:end].strip()`
pub chunk_of : Str → ℕ × ℕ → Str
chunk_of text span = strip (slice text span.0 span.1)

-- `[c for c in chunks if c]`
abbrev pub keep_chunks : Str → Option (List (ℕ × ℕ)) → Option (List Str)
keep_chunks text none = none
keep_chunks text (some spans) = some (filter (λ c. not (is_empty c)) (map (chunk_of text) spans))

unfoldable pub chunk_text : Str → ℕ → ℕ → Option (List Str)
chunk_text text chunk_size overlap =
    if is_empty text
    then some []
    else keep_chunks text (chunk_spans (suc (length text)) text chunk_size overlap 0)

-- What a run on a concrete text computes with.
abbrev run_steps : Unit {0}
unfolding chunk_spans chunk_end find_boundary rfind next_start cons_span chunk_of str_eq slice
run_steps = tt
