-- ===== src/Worker/Tasks.antt =====
-- The task handlers and `AsyncWorker` of backend/app/workers/worker.py, on one worker.
pub mod Outcomes
pub mod Lifecycle
mod Tests
use ai_secure_collaboration.Prelude.{
  ℕ, ◌+◌, ◌^◌, Bool, true, false, not, ◌&&◌, ◌||◌, Option, none, some, List, [], ◌∷◌, map, length,
  drop, Str, codes, str_eq, is_empty, ltb, leb, ◌==◌, if◌then◌else◌,
}
use ai_secure_collaboration.External.Redis.{Redis, processed, queue_default, queue_dlq}
use ai_secure_collaboration.External.Json.{Json, Payload}
use ai_secure_collaboration.Worker.Queue.{or_empty, or_default}

-- What is registered under `@task_handler`.
pub data Handler : Type 0 where
  send_email_notification mock_failed_task generate_note_embeddings : Handler

-- `handlers.get(name)`
pub handlers_get : Str → Option Handler
handlers_get name =
    if str_eq name (codes "send_email_notification")
    then some send_email_notification
    else if str_eq name (codes "mock_failed_task")
    then some mock_failed_task
    else if str_eq name (codes "generate_note_embeddings")
    then some generate_note_embeddings
    else none

abbrev pub has_key : Str → List (Str × Str) → Bool
has_key k [] = false
has_key k ((j, v) ∷ kwargs) = str_eq k j || has_key k kwargs

abbrev pub all_keys : List Str → List (Str × Str) → Bool
all_keys [] kwargs = true
all_keys (k ∷ ks) kwargs = has_key k kwargs && all_keys ks kwargs

-- Python binds `*args, **kwargs` to these parameters.
pub binds : List Str → List Str → List (Str × Str) → Bool
binds params args kwargs =
    let open_params = drop (length args) params in
    leb (length args) (length params)
    && length open_params == length kwargs
    && all_keys open_params kwargs

-- The rest of the process: how `generate_note_embeddings` ends on its arguments, with the text of
-- the exception that it raises if any, and the text of a `TypeError`.
pub record Runtime : Type 0 where
  pub embeddings : List Str → List (Str × Str) → Option Str
  pub type_error : Str

-- `await handler(*args, **kwargs)`: `some` is the text of the exception.
pub run_handler : Runtime → Handler → List Str → List (Str × Str) → Option Str
run_handler rt send_email_notification args kwargs =
    if binds (codes "email" ∷ codes "subject" ∷ codes "body" ∷ []) args kwargs
    then none
    else some rt.type_error
run_handler rt mock_failed_task args kwargs =
    if binds [] args kwargs
    then some (codes "Simulated connection timeout during task execution.")
    else some rt.type_error
run_handler rt generate_note_embeddings args kwargs = rt.embeddings args kwargs

-- Which branch a task took. The handler ran for the last four.
pub data Outcome : Type 0 where
  idle corrupted invalid duplicate no_handler succeeded retried dead key_error : Outcome

abbrev pub in_progress : Str
in_progress = codes "in_progress"

abbrev pub success : Str
success = codes "success"

abbrev pub failed : Str
failed = codes "failed"

-- `state == text`, for what GET returned.
abbrev pub is_text : Option Str → Str → Bool
is_text none t = false
is_text (some s) t = str_eq s t

-- `not value`
abbrev pub is_missing : Option Str → Bool
is_missing none = true
is_missing (some s) = is_empty s

module _ (redis : Redis) (json : Json) (rt : Runtime) (now : ℕ) where
  open redis use {State, lpush, brpop, set, set_nx, get, delete, zadd}
  open json use {dumps, loads}

  pub promote_to_dlq : Payload → Str → State → State
  promote_to_dlq payload error_msg s =
      lpush queue_dlq
        (dumps (record payload { dlq_timestamp = some now; dlq_reason = some error_msg })) s

  -- `payload["retry_count"] += 1` raises where the key is missing, before anything is written.
  pub schedule_retry : Str → Option ℕ → Payload → State → Outcome × State
  schedule_retry task_id none payload s = (key_error, s)
  schedule_retry task_id (some retry_count) payload s = (
    retried,
    zadd (dumps (record payload { retry_count = some (retry_count + 1) })) (now + 2 ^ retry_count)
        (delete (processed task_id) s),
  )

  -- The `except` branch.
  pub handle_failure : Str → Str → Payload → State → Outcome × State
  handle_failure task_id error_msg payload s =
      if ltb (or_default payload.retry_count 0) (or_default payload.max_retries 3)
      then schedule_retry task_id payload.retry_count payload s
      else (dead, set (processed task_id) failed (promote_to_dlq payload error_msg s))

  pub finish : Str → Option Str → Payload → State → Outcome × State
  finish task_id none payload s = (succeeded, set (processed task_id) success s)
  finish task_id (some error_msg) payload s = handle_failure task_id error_msg payload s

  pub run_task : Str → Option Handler → Payload → State → Outcome × State
  run_task task_id none payload s =
      (no_handler, promote_to_dlq payload (codes "No handler registered.") s)
  run_task task_id (some handler) payload s =
      finish task_id (run_handler rt handler (or_empty payload.args) (or_empty payload.kwargs))
        payload s

  -- From the idempotency guard on.
  pub guarded : Str → Str → Payload → State → Outcome × State
  guarded task_id name payload s =
      let (lock_status, s') = set_nx (processed task_id) in_progress s in
      let state = get (processed task_id) s' in
      let run = run_task task_id (handlers_get name) payload s' in
      if lock_status
      then run
      else if is_text state success
      then (duplicate, s')
      else if is_text state in_progress
      then (duplicate, s')
      else run

  abbrev pub text_of : Option Str → Str
  text_of none = []
  text_of (some s) = s

  pub process_payload : Option Payload → State → Outcome × State
  process_payload none s = (corrupted, s)
  process_payload (some payload) s =
      if is_missing payload.task_id || is_missing payload.name
      then (invalid, s)
      else guarded (text_of payload.task_id) (text_of payload.name) payload s

  pub process_task : Str → State → Outcome × State
  process_task payload_str s = process_payload (loads payload_str) s

  -- What BRPOP returned: nothing at its timeout, or a payload and the state without it.
  pub polled : Option (Str × State) → State → Outcome × State
  polled none s = (idle, s)
  polled (some (payload_str, s')) s = process_task payload_str s'

  -- One round of `_worker_loop`.
  pub worker_poll : State → Outcome × State
  worker_poll s = polled (brpop queue_default s) s
