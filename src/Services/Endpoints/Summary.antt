-- ===== src/Services/Endpoints/Summary.antt =====
-- `summarize_chat` of backend/app/api/v1/endpoints/ai.py. `complete` is `generate_completion`.
pub mod Digest
use ai_secure_collaboration.Prelude.{
  ℕ, ◌+◌, Option, none, some, List, [], ◌∷◌, ◌++◌, map, length, join, Str, codes,
}
use ai_secure_collaboration.External.Sql.{Sql}
use ai_secure_collaboration.External.Redis.{Redis}
use ai_secure_collaboration.External.Numerals.{Numerals}
use ai_secure_collaboration.Core.Action.{Action, Result, ok, err, pure, gets, ◌>>=◌}
use ai_secure_collaboration.Models.{User, ChatMessage, Database}
use ai_secure_collaboration.Repositories.{Session, user_repo, get}
use ai_secure_collaboration.Services.Endpoints.{transcript_messages}

pub record ChatSummary : Type 0 where
  pub room_id : ℕ
  pub summary : Str
  pub message_count : ℕ

abbrev pub empty_digest : Str
empty_digest =
    codes "### Empty Room Logs"
    ++ (10
        ∷ 10
        ∷ codes "No message logs are recorded in this chat room yet. Go write some messages first!")

abbrev pub summary_instruction : Str
summary_instruction =
    codes
      "You are an expert workspace intelligence agent. Provide a concise, professional markdown bulleted summary digest of the chat room transcript. Highlight participants, central topics discussed, and action items if any exist."

-- `None` in a formatted text
unfoldable pub or_none_text : Option Str → Str
or_none_text none = codes "None"
or_none_text (some s) = s

module _ (numerals : Numerals) where
  -- `msg.user.full_name if msg.user else f"User {msg.user_id}"`
  unfoldable pub author_text : Option User → ℕ → Str
  unfolding or_none_text
  author_text none user_id = codes "User " ++ numerals.str user_id
  author_text (some user) user_id = or_none_text user.full_name

  module _ (sql : Sql) where
    unfoldable pub transcript_line : Database sql → ChatMessage → Str
    unfolding author_text
    transcript_line d msg =
        codes "["
        ++ (author_text (get sql (user_repo sql) msg.user_id d) msg.user_id
            ++ (codes "]: " ++ msg.content))

    unfoldable pub summary_prompt : Database sql → List ChatMessage → Str
    unfolding transcript_line
    summary_prompt d messages =
        codes "Chat Transcript:"
        ++ (10
            ∷ (join 10 (map (transcript_line d) messages)
                ++ (10 ∷ 10 ∷ codes "Summarize the discussions and decisions made.")))

    module _ (complete : Str → Str → Str) where
      -- The answer for the messages in the order of the transcript.
      unfoldable pub digest : ℕ → List ChatMessage → Database sql → ChatSummary
      unfolding summary_prompt
      digest room_id [] d = record { room_id = room_id; summary = empty_digest; message_count = 0 }
      digest room_id (m ∷ messages) d = record {
        room_id = room_id;
        summary = complete (summary_prompt d (m ∷ messages)) summary_instruction;
        message_count = length (m ∷ messages);
      }

      module _ (redis : Redis) where
        unfoldable pub summarize_chat : ℕ → ℕ → Option ℕ → Action (Session sql redis) ChatSummary
        unfolding digest
        summarize_chat room_id current_user_id limit = do
          messages ← transcript_messages sql redis room_id current_user_id limit
          gets (λ s. digest room_id messages s.db)
