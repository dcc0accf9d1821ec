-- ===== src/Services/Ai/Tests.antt =====
-- The embeddings with natural numbers as floats and a constant hash.
use ai_secure_collaboration.Prelude.{
  ◌≡◌, ◌≤◌, refl, arith, inl, inr, some, [], ◌∷◌, Str, codes, length, All,
}
use ai_secure_collaboration.External.Concrete.Tally.{natural_floats, local_numerals}
use ai_secure_collaboration.Services.Ai.{
  dimensions, salted_hash, from_hex, hex_digit, Reply, response, generate_embedding,
}
use ai_secure_collaboration.Services.Ai.Bounds.{IsHex, length-generate_embedding}

abbrev digest : Str → Str
digest s = codes "ffffffff00"

digest-IsHex : (s : Str) → All IsHex (digest s)
unfolding codes
digest-IsHex s =
    let letter : IsHex 102 = inr (omega arith, omega arith) in
    let digit : IsHex 48 = inl (omega arith, omega arith) in
    (
      letter,
      (letter, (letter, (letter, (letter, (letter, (letter, (letter, (digit, (digit, tt))))))))),
    )

digest-long : (s : Str) → 8 ≤ length (digest s)
unfolding codes
digest-long s = omega arith

-- The bound is reached.
largest : salted_hash digest (codes "word:0") ≡ 4294967295
unfolding salted_hash from_hex hex_digit codes
largest = refl

-- A short answer of the service.
abbrev short_answer : Str → Reply natural_floats
short_answer s = response 200 (some (1 ∷ 2 ∷ []))

length-generate_embedding_example :
    length (
      generate_embedding natural_floats local_numerals digest
        (λ s. s ∷ [])
        (λ s. s)
        (some (codes "key"))
        short_answer
        (codes "text"))
    ≡ dimensions
length-generate_embedding_example =
    length-generate_embedding natural_floats local_numerals digest (λ s. s ∷ []) (λ s. s)
      (some (codes "key")) short_answer (codes "text")
