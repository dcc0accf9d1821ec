-- ===== src/External/Json.antt =====
-- Task payloads and `json.dumps` / `json.loads` on them.
use ai_secure_collaboration.Prelude.{ℕ, ◌≡◌, Option, some, List, Str}

-- The dictionary of a task; `none` is a key that is missing. Arguments are kept as JSON texts.
pub record Payload : Type 0 where
  pub task_id : Option Str
  pub name : Option Str
  pub args : Option (List Str)
  pub kwargs : Option (List (Str × Str))
  pub retry_count : Option ℕ
  pub max_retries : Option ℕ
  pub dlq_timestamp : Option ℕ
  pub dlq_reason : Option Str

-- `loads` gives `none` where it raises `JSONDecodeError`.
pub record Json : Type 0 where
  pub dumps : Payload → Str
  pub loads : Str → Option Payload
  pub loads-dumps : (p : Payload) → loads (dumps p) ≡ some p
