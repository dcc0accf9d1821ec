-- ===== src/Services/Endpoints/Summary/Digest.antt =====
-- What the summary of a chat room is made of.
use ai_secure_collaboration.Prelude.{Option, ℕ, ◌≡◌, ◌≢◌, List, [], length, Str}
use ai_secure_collaboration.External.Sql.{Sql}
use ai_secure_collaboration.External.Redis.{Redis}
use ai_secure_collaboration.External.Numerals.{Numerals}
use ai_secure_collaboration.Models.{ChatMessage}
use ai_secure_collaboration.Repositories.{Session}
use ai_secure_collaboration.Services.Chat.{up_to}
use ai_secure_collaboration.Services.Endpoints.Transcript.{History}
use ai_secure_collaboration.Services.Endpoints.Summary.{
  ChatSummary, empty_digest, summary_instruction, summary_prompt,
}

module _ (numerals : Numerals) (sql : Sql) (redis : Redis) (complete : Str → Str → Str)
    (room_id current_user_id : ℕ) (limit : Option ℕ) where
  -- The messages behind a summary, and what is said of them.
  pub record Summarized (s : Session sql redis) (response : ChatSummary) : Type 0 where
    pub all : List ChatMessage
    pub history : History sql redis room_id s all
    pub messages : List ChatMessage
    pub latest : messages ≡ up_to limit all
    pub counted : (response.room_id ≡ room_id) × (response.message_count ≡ length messages)
    pub of_none : messages ≡ [] → response.summary ≡ empty_digest
    pub of_some :
        messages ≢ []
        → response.summary
          ≡ complete (summary_prompt numerals sql s.db messages) summary_instruction
