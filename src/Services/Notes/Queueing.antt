-- ===== src/Services/Notes/Queueing.antt =====
-- The task that a written note leaves for the worker.
use ai_secure_collaboration.Prelude.{ℕ, ◌≡◌, refl, Option, none, some, [], ◌∷◌, Str, codes}
use ai_secure_collaboration.External.Sql.{Sql}
use ai_secure_collaboration.External.Redis.{Redis, queue_default, with_list}
use ai_secure_collaboration.External.Json.{Json}
use ai_secure_collaboration.Repositories.{Session}
use ai_secure_collaboration.Worker.Queue.Immediate.{fresh_task, enqueue_immediate}
use ai_secure_collaboration.Services.Notes.{queue_embeddings}

-- Without a client nothing is queued; with one, the task that embeds the note comes to the head of the
-- default queue, and no other key changes.
abbrev pub Queued :
    (redis : Redis) → Json → Str → Str → Option redis.State → Option redis.State → Type 0
Queued redis json task_id note_number none after = after ≡ none
Queued redis json task_id note_number (some c) after =
    (c' : redis.State) × (after ≡ some c')
    × (redis.view c'
        ≡ with_list queue_default
            (json.dumps (fresh_task task_id (codes "generate_note_embeddings") (note_number ∷ []) 3)
              ∷ (redis.view c).lists queue_default)
            (redis.view c))

pub queue_embeddings-Queued :
    (sql : Sql) (redis : Redis) (json : Json) (lower : Str → Str) (show : ℕ → Str) (now : ℕ)
    (task_id : Str) (note_id : ℕ) (cache : Option redis.State) (s : Session sql redis)
    → s.cache ≡ cache
    → Queued redis json task_id
        (show note_id)
        cache
        (queue_embeddings sql redis json lower show now task_id note_id s).cache
unfolding queue_embeddings
queue_embeddings-Queued sql redis json lower show now task_id note_id none s e = rw e refl
queue_embeddings-Queued sql redis json lower show now task_id note_id (some c) s e = rw e (
  _,
  refl,
  enqueue_immediate redis json now task_id (codes "generate_note_embeddings") (show note_id ∷ []) 3
      c,
)

-- Queueing commits nothing.
pub queue_embeddings-durable :
    (sql : Sql) (redis : Redis) (json : Json) (lower : Str → Str) (show : ℕ → Str) (now : ℕ)
    (task_id : Str) (note_id : ℕ) (s : Session sql redis)
    → (queue_embeddings sql redis json lower show now task_id note_id s).durable ≡ s.durable
unfolding queue_embeddings
queue_embeddings-durable sql redis json lower show now task_id note_id s = refl
