-- ===== src/Worker/Tasks/Tests.antt =====
-- The theorems about tasks, at a task that fails and at one that succeeds, on a local Redis.
use ai_secure_collaboration.Prelude.{
  ℕ, zero, suc, ◌^◌, ◌≤◌, ◌<◌, ◌≡◌, refl, inl, none, some, [], ◌∷◌, ◌++◌, arith, Str, codes, str_eq,
  is_empty,
}
use ai_secure_collaboration.External.Redis.{
  queue_default, queue_dlq, processed, with_string, with_list,
}
use ai_secure_collaboration.External.Json.{Payload}
use ai_secure_collaboration.External.Concrete.Codec.{codec_json}
use ai_secure_collaboration.External.Concrete.LocalRedis.{
  Local, empty_redis, local_redis, local_view,
}
use ai_secure_collaboration.External.Concrete.SortedSet.{score}
use ai_secure_collaboration.Worker.Tasks.{
  Runtime, handlers_get, mock_failed_task, send_email_notification, binds, run_handler, retried,
  dead, no_handler, duplicate, in_progress, success, failed, process_task,
}
use ai_secure_collaboration.Worker.Tasks.Outcomes.{IsNamed, process_no_handler, process_duplicate}
use ai_secure_collaboration.Worker.Tasks.Lifecycle.{run_rounds, repeat, failing_task_is_buried}

abbrev runtime : Runtime
runtime = record { embeddings = λ args kwargs. none; type_error = [] }

abbrev timeout : Str
timeout = codes "Simulated connection timeout during task execution."

-- What `/jobs/test-fail` enqueues, with the given number of retries used.
abbrev failing : ℕ → Payload
failing used = record {
  task_id = some (7 ∷ []);
  name = some (codes "mock_failed_task");
  args = some [];
  kwargs = some [];
  retry_count = some used;
  max_retries = some 2;
  dlq_timestamp = none;
  dlq_reason = none;
}

abbrev mail : Payload
mail = record (failing 0) {
  name = some (codes "send_email_notification");
  args = some ((1 ∷ []) ∷ (2 ∷ []) ∷ (3 ∷ []) ∷ []);
}

abbrev unknown : Payload
unknown = record (failing 0) { name = some (codes "resize_image") }

abbrev queued_with : Payload → Local
queued_with p = record empty_redis {
  lists = λ k. elim k [ queue_default ↦ codec_json.dumps p ∷ [] | queue_dlq ↦ [] ];
}

failing-IsNamed : (used : ℕ) → IsNamed (failing used) (7 ∷ []) (codes "mock_failed_task")
unfolding codes is_empty
failing-IsNamed used = record { has_id = refl; has_name = refl; id_full = refl; name_full = refl }

mock_registered : handlers_get (codes "mock_failed_task") ≡ some mock_failed_task
unfolding handlers_get codes str_eq
mock_registered = refl

mock_raises : run_handler runtime mock_failed_task [] [] ≡ some timeout
unfolding run_handler binds
mock_raises = refl

failing_task_is_buried_example :
    let (outcomes, u) =
      run_rounds local_redis codec_json runtime 3 (λ t. 4) 100 (queued_with (failing 0)) in
    (at : ℕ) × (outcomes ≡ repeat 2 retried ++ dead ∷ [])
    × ((local_redis.view u).lists queue_default ≡ [])
    × ((m : Str) → (local_redis.view u).delayed m ≡ none)
    × ((local_redis.view u).strings (processed (7 ∷ [])) ≡ some failed)
    × ((local_redis.view u).lists queue_dlq
        ≡ codec_json.dumps (record (failing 0) {
          retry_count = some 2;
          dlq_timestamp = some at;
          dlq_reason = some timeout;
        })
          ∷ [])
unfolding local_view score
failing_task_is_buried_example =
    failing_task_is_buried local_redis codec_json runtime (7 ∷ []) (codes "mock_failed_task")
      timeout 2 mock_failed_task mock_registered 2 100 0 (λ t. 4) (failing 0) []
      (queued_with (failing 0)) (omega arith) (λ t k h. small k h)
      (record { named = failing-IsNamed 0; raises = mock_raises; counted = refl; bounded = refl })
      (record { queued = refl; nothing_delayed = λ m. refl; unlocked = refl; buried = refl })
  where
    small : (k : ℕ) → k < 2 → 2 ^ k ≤ 4
    small zero h = omega arith
    small (suc zero) h = omega arith
    small (suc (suc k)) h = absurd (omega arith)

mail_registered : handlers_get (codes "send_email_notification") ≡ some send_email_notification
unfolding handlers_get codes str_eq
mail_registered = refl

mail_returns :
    run_handler runtime send_email_notification ((1 ∷ []) ∷ (2 ∷ []) ∷ (3 ∷ []) ∷ []) [] ≡ none
unfolding run_handler binds
mail_returns = refl

mail-IsNamed : IsNamed mail (7 ∷ []) (codes "send_email_notification")
unfolding codes is_empty
mail-IsNamed = record { has_id = refl; has_name = refl; id_full = refl; name_full = refl }

unknown-IsNamed : IsNamed unknown (7 ∷ []) (codes "resize_image")
unfolding codes is_empty
unknown-IsNamed = record { has_id = refl; has_name = refl; id_full = refl; name_full = refl }

unknown_missing : handlers_get (codes "resize_image") ≡ none
unfolding handlers_get codes str_eq
unknown_missing = refl

process_no_handler_example :
    ((process_task local_redis codec_json runtime 100 (codec_json.dumps unknown) empty_redis).0
      ≡ no_handler)
    × (local_redis.view
          (process_task local_redis codec_json runtime 100 (codec_json.dumps unknown) empty_redis).1
        ≡ with_list queue_dlq
            (codec_json.dumps (record unknown {
              dlq_timestamp = some 100;
              dlq_reason = some (codes "No handler registered.");
            })
              ∷ (local_redis.view empty_redis).lists queue_dlq)
            (with_string (processed (7 ∷ [])) (some in_progress) (local_redis.view empty_redis)))
unfolding local_view
process_no_handler_example =
    process_no_handler local_redis codec_json runtime 100 empty_redis unknown (7 ∷ [])
      (codes "resize_image") unknown-IsNamed refl unknown_missing

-- The mail task has been done.
abbrev done : Local
done = record empty_redis { strings = λ k. some success }

process_duplicate_example :
    ((process_task local_redis codec_json runtime 100 (codec_json.dumps mail) done).0 ≡ duplicate)
    × (local_redis.view
          (process_task local_redis codec_json runtime 100 (codec_json.dumps mail) done).1
        ≡ local_redis.view done)
unfolding local_view
process_duplicate_example =
    process_duplicate local_redis codec_json runtime 100 done mail (7 ∷ [])
      (codes "send_email_notification") mail-IsNamed success refl (inl refl)
