-- ===== src/Worker/Queue/Immediate.antt =====
-- A task that is queued without a delay.
use ai_secure_collaboration.Prelude.{ℕ, ◌≡◌, none, some, List, [], ◌∷◌, Str}
use ai_secure_collaboration.External.Redis.{Redis, queue_default, with_list}
use ai_secure_collaboration.External.Json.{Json, Payload}
use ai_secure_collaboration.Worker.Queue.{enqueue, new_payload}

-- A task that has not been tried: its arguments are positional.
abbrev pub fresh_task : Str → Str → List Str → ℕ → Payload
fresh_task task_id name args max_retries = record {
  task_id = some task_id;
  name = some name;
  args = some args;
  kwargs = some [];
  retry_count = some 0;
  max_retries = some max_retries;
  dlq_timestamp = none;
  dlq_reason = none;
}

-- It comes to the head of the default queue, and no other key changes.
pub enqueue_immediate :
    (redis : Redis) (json : Json) (now : ℕ) (task_id name : Str) (args : List Str) (max_retries : ℕ)
    (s : redis.State)
    → redis.view (enqueue redis json now task_id name (some args) none none max_retries s).1
      ≡ with_list queue_default
          (json.dumps (fresh_task task_id name args max_retries)
            ∷ (redis.view s).lists queue_default)
          (redis.view s)
unfolding enqueue new_payload
enqueue_immediate redis json now task_id name args max_retries s =
    redis.lpush_view queue_default (json.dumps (fresh_task task_id name args max_retries)) s
