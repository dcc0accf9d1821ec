-- ===== src/Worker/Queue.antt =====
-- `TaskQueue` of backend/app/workers/task_queue.py and one round of `TaskScheduler` of
-- backend/app/workers/scheduler.py. Times are whole seconds.
pub mod Scheduler
pub mod Immediate
mod Tests
use ai_secure_collaboration.Prelude.{
  ℕ, ◌+◌, Option, none, some, List, [], ◌∷◌, Str, ltb, if◌then◌else◌,
}
use ai_secure_collaboration.External.Redis.{Redis, queue_default}
use ai_secure_collaboration.External.Json.{Json, Payload}

-- `args or []`
abbrev pub or_empty {ℓ} : {A : Type ℓ} → Option (List A) → List A
or_empty none = []
or_empty (some xs) = xs

-- `payload.get(key, default)`
abbrev pub or_default {ℓ} : {A : Type ℓ} → Option A → A → A
or_default none d = d
or_default (some a) _ = a

-- The payload of a new task; `task_id` is the fresh UUID.
pub new_payload : Str → Str → Option (List Str) → Option (List (Str × Str)) → ℕ → Payload
new_payload task_id name args kwargs max_retries = record {
  task_id = some task_id;
  name = some name;
  args = some (or_empty args);
  kwargs = some (or_empty kwargs);
  retry_count = some 0;
  max_retries = some max_retries;
  dlq_timestamp = none;
  dlq_reason = none;
}

module _ (redis : Redis) where
  open redis use {State, lpush, zadd, zrem, zrangebyscore}

  -- `delay` counts seconds; a missing delay is 0.
  pub enqueue_raw : ℕ → Str → ℕ → State → State
  enqueue_raw now payload_str delay s =
      if ltb 0 delay then zadd payload_str (now + delay) s else lpush queue_default payload_str s

  -- The task id is returned beside the new state.
  pub enqueue :
      Json
      → ℕ
      → Str
      → Str
      → Option (List Str)
      → Option (List (Str × Str))
      → Option ℕ
      → ℕ
      → State
      → Str × State
  enqueue json now task_id name args kwargs delay max_retries s =
      let payload_str = json.dumps (new_payload task_id name args kwargs max_retries) in
      let seconds = or_default delay 0 in
      (
        task_id,
        if ltb 0 seconds
            then zadd payload_str (now + seconds) s
            else lpush queue_default payload_str s,
      )

  -- The transaction on one task; whether ZREM removed it is only logged.
  pub promote : Str → State → State
  promote task_str s = lpush queue_default task_str (zrem task_str s).1

  pub promote_all : List Str → State → State
  promote_all [] s = s
  promote_all (task_str ∷ tasks) s = promote_all tasks (promote task_str s)

  -- One round of `_scheduler_loop`.
  pub scheduler_poll : ℕ → State → State
  scheduler_poll now s = promote_all (zrangebyscore now s) s
