-- ===== src/Services/Ai/Completion.antt =====
-- `generate_completion` of backend/app/services/ai.py. The mock, which rests on regular expressions, is an
-- argument, and so is the request.
use ai_secure_collaboration.Prelude.{
  ℕ, ◌≡◌, ◌⊎◌, refl, inl, inr, arith, false, Option, none, some, Str, ◌==◌, ==_iff, if◌then◌else◌,
  Bool-cases,
}
use ai_secure_collaboration.Services.Ai.{is_offline}

-- What the request ends with: an exception, also one in reading the body, or a status and the text of
-- the first candidate, where there is one.
pub data CompletionReply : Type 0 where
  raised : CompletionReply
  response : ℕ → Option Str → CompletionReply

unfoldable pub or_mock : Option Str → Str → Str
or_mock none mock = mock
or_mock (some text) mock = text

unfoldable pub text_of : CompletionReply → Str → Str
unfolding or_mock
text_of raised mock = mock
text_of (response status_code candidate) mock =
    if status_code == 200 then or_mock candidate mock else mock

text_of-cases :
    (r : CompletionReply) (mock : Str)
    → (text_of r mock ≡ mock)
      ⊎ ((text : Str) × (r ≡ response 200 (some text)) × (text_of r mock ≡ text))
unfolding text_of
text_of-cases raised mock = inl refl
text_of-cases (response status_code none) mock = inl (ground arith)
text_of-cases (response status_code (some text)) mock = elim (Bool-cases (status_code == 200)) [
  | inl e ↦ let same = (==_iff status_code 200).0 e in inr (text, rw same refl, rw e refl)
  | inr e ↦ inl (rw e refl)
]

module _ (mock : Str → Str) (post : Str → Option Str → CompletionReply) where
  unfoldable pub generate_completion : Option Str → Str → Option Str → Str
  unfolding text_of
  generate_completion api_key prompt system_instruction =
      if is_offline api_key
      then mock prompt
      else text_of (post prompt system_instruction) (mock prompt)

  -- A completion is always given: it is the text of the first candidate of an answer with status 200, which
  -- takes a key, or else the mock.
  pub generate_completion_total :
      (api_key : Option Str) (prompt : Str) (system_instruction : Option Str)
      → (generate_completion api_key prompt system_instruction ≡ mock prompt)
        ⊎ ((text : Str) × (is_offline api_key ≡ false)
            × (post prompt system_instruction ≡ response 200 (some text))
            × (generate_completion api_key prompt system_instruction ≡ text))
  unfolding generate_completion
  generate_completion_total api_key prompt system_instruction =
      elim (Bool-cases (is_offline api_key)) [
        | inl offline ↦ inl (rw offline refl)
        | inr online ↦ elim (text_of-cases (post prompt system_instruction) (mock prompt)) [
          | inl failed ↦ inl (rw online failed)
          | inr (text, replied, same) ↦ inr (text, online, replied, rw online same)
        ]
      ]
