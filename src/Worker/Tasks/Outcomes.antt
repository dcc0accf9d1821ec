-- ===== src/Worker/Tasks/Outcomes.antt =====
-- What one task does to the queues and to its idempotency key, branch by branch.
use ai_secure_collaboration.Prelude.{
  ℕ, ◌+◌, ◌^◌, ◌<◌, ◌≤◌, ◌≡◌, refl, ap, fun_ext, ◌⊎◌, inl, inr, Bool, true, false, Option, none,
  some, ◌∷◌, arith, Str, codes, is_empty, str_eq_refl, if◌then◌else◌, ◌∙◌,
}
use ai_secure_collaboration.External.Redis.{
  Redis, Keyspace, StringKey, processed, queue_dlq, with_string, with_list, with_score,
  string_key_eq,
}
use ai_secure_collaboration.External.Json.{Json, Payload}
use ai_secure_collaboration.Worker.Queue.{or_empty}
use ai_secure_collaboration.Worker.Tasks.{
  Handler, handlers_get, Runtime, run_handler, Outcome, duplicate, no_handler, succeeded, retried,
  dead, in_progress, success, failed, promote_to_dlq, schedule_retry, handle_failure, finish,
  run_task, guarded, process_payload, process_task,
}

with_string_twice :
    (k : StringKey) (v w : Option Str) (s : Keyspace)
    → with_string k v (with_string k w s) ≡ with_string k v s
with_string_twice k v w s =
    ap (λ f. record s { strings = f }) (fun_ext λ j. if_twice (string_key_eq j k) v w (s.strings j))
  where
    if_twice :
        (b : Bool) (x y z : Option Str)
        → (if b then x else (if b then y else z)) ≡ (if b then x else z)
    if_twice true x y z = refl
    if_twice false x y z = refl

-- A payload with a task id and a name that are not empty.
pub record IsNamed (p : Payload) (task_id name : Str) : Type 0 where
  pub has_id : p.task_id ≡ some task_id
  pub has_name : p.name ≡ some name
  pub id_full : is_empty task_id ≡ false
  pub name_full : is_empty name ≡ false

module _ (redis : Redis) (json : Json) (rt : Runtime) (now : ℕ) (s : redis.State) (p : Payload)
    (task_id name : Str) (named : IsNamed p task_id name) where
  open redis use {
    State, view, set_nx, get, get_view, set_nx_new, set_nx_old, set, delete, zadd, lpush, set_view,
    delete_view, zadd_view, lpush_view,
  }
  open json use {dumps}

  to_guard : process_task redis json rt now (dumps p) s ≡ guarded redis json rt now task_id name p s
  unfolding process_task process_payload
  to_guard = rw json.loads-dumps (rw (named.has_id, named.has_name, named.id_full, named.name_full))

  guard_skips :
      (state : Str)
      → (set_nx (processed task_id) in_progress s).0 ≡ false
      → get (processed task_id) (set_nx (processed task_id) in_progress s).1 ≡ some state
      → (state ≡ success) ⊎ (state ≡ in_progress)
      → guarded redis json rt now task_id name p s
        ≡ (duplicate, (set_nx (processed task_id) in_progress s).1)
  unfolding guarded
  guard_skips state kept now_is (inl e) = rw (kept, now_is) (rw e (rw str_eq_refl))
  guard_skips state kept now_is (inr e) =
      rw (kept, now_is) (rw e (ground (arith, str_eq_refl in_progress)))

  module _ (fresh : (view s).strings (processed task_id) ≡ none) where
    to_run :
        process_task redis json rt now (dumps p) s
        ≡ run_task redis json rt now task_id
            (handlers_get name)
            p
            (set_nx (processed task_id) in_progress s).1
    unfolding guarded
    to_run = rw to_guard (rw (set_nx_new (processed task_id) in_progress s fresh).0)

    locked :
        view (set_nx (processed task_id) in_progress s).1
        ≡ with_string (processed task_id) (some in_progress) (view s)
    locked = (set_nx_new (processed task_id) in_progress s fresh).1

    -- Reads the outcome and the view off a run that is known.
    by_run :
        (o : Outcome) (t : State) (k : Keyspace)
        → run_task redis json rt now task_id
            (handlers_get name)
            p
            (set_nx (processed task_id) in_progress s).1
          ≡ (o, t)
        → view t ≡ k
        → ((process_task redis json rt now (dumps p) s).0 ≡ o)
          × (view (process_task redis json rt now (dumps p) s).1 ≡ k)
    by_run o t k run same =
        (ap (λ r. r.0) (to_run ∙ run), ap (λ (r : Outcome × State). view r.1) (to_run ∙ run) ∙ same)

    module _ (handler : Handler) (registered : handlers_get name ≡ some handler) where
      -- A task whose handler returns is marked as done, and no queue changes.
      pub process_succeeded :
          run_handler rt handler (or_empty p.args) (or_empty p.kwargs) ≡ none
          → ((process_task redis json rt now (dumps p) s).0 ≡ succeeded)
            × (view (process_task redis json rt now (dumps p) s).1
                ≡ with_string (processed task_id) (some success) (view s))
      unfolding run_task finish
      process_succeeded returns =
          let k = processed task_id in
          by_run _ _ _ (rw registered (rw returns)) (
            set_view k success _
            ∙ ap (with_string k (some success)) locked
            ∙ with_string_twice k (some success) (some in_progress) (view s))

      module _ (error_msg : Str)
          (raises : run_handler rt handler (or_empty p.args) (or_empty p.kwargs)
            ≡ some error_msg) where
        to_failure :
            (t : State)
            → run_task redis json rt now task_id (handlers_get name) p t
              ≡ handle_failure redis json rt now task_id error_msg p t
        unfolding run_task finish
        to_failure t = rw registered (rw raises)

        module _ (retry_count max_retries : ℕ) (counted : p.retry_count ≡ some retry_count)
            (bounded : p.max_retries ≡ some max_retries) where
          retry : Payload
          retry = record p { retry_count = some (retry_count + 1) }

          buried : Payload
          buried = record p { dlq_timestamp = some now; dlq_reason = some error_msg }

          failure_retries :
              retry_count < max_retries
              → (t : State)
              → handle_failure redis json rt now task_id error_msg p t ≡ (
                retried,
                zadd (dumps retry) (now + 2 ^ retry_count) (delete (processed task_id) t),
              )
          unfolding handle_failure schedule_retry retry
          failure_retries h t = ground arith

          failure_buries :
              max_retries ≤ retry_count
              → (t : State)
              → handle_failure redis json rt now task_id error_msg p t
                ≡ (dead, set (processed task_id) failed (lpush queue_dlq (dumps buried) t))
          unfolding handle_failure schedule_retry promote_to_dlq buried
          failure_buries h t = ground arith

          -- A task whose handler raises, with retries left: it goes into the delayed set with one retry
          -- more on its count, due 2 ^ retry_count seconds later, and its key is deleted.
          pub process_retried :
              retry_count < max_retries
              → ((process_task redis json rt now (dumps p) s).0 ≡ retried)
                × (view (process_task redis json rt now (dumps p) s).1
                    ≡ with_score
                        (dumps (record p { retry_count = some (retry_count + 1) }))
                        (some (now + 2 ^ retry_count))
                        (with_string (processed task_id) none (view s)))
          unfolding retry
          process_retried h =
              let k = processed task_id in
              let due = now + 2 ^ retry_count in
              by_run _ _ _ (to_failure _ ∙ failure_retries h _) (
                zadd_view (dumps retry) due _
                ∙ ap (with_score (dumps retry) (some due)) (
                    delete_view k _
                    ∙ ap (with_string k none) locked
                    ∙ with_string_twice k none (some in_progress) (view s)))

          -- A task whose handler raises, with no retry left: it goes to the head of the dead-letter
          -- queue with the time and the error, and its key says that it failed.
          pub process_dead :
              max_retries ≤ retry_count
              → ((process_task redis json rt now (dumps p) s).0 ≡ dead)
                × (view (process_task redis json rt now (dumps p) s).1
                    ≡ with_string (processed task_id) (some failed) (
                        with_list queue_dlq
                          (dumps
                              (record p { dlq_timestamp = some now; dlq_reason = some error_msg })
                            ∷ (view s).lists queue_dlq)
                          (view s)))
          unfolding buried
          process_dead h =
              let k = processed task_id in
              by_run _ _ _ (to_failure _ ∙ failure_buries h _) (
                set_view k failed _
                ∙ ap (with_string k (some failed)) (
                    lpush_view queue_dlq (dumps buried) _
                    ∙ ap (λ t. with_list queue_dlq (dumps buried ∷ t.lists queue_dlq) t) locked)
                ∙ with_string_twice k (some failed) (some in_progress) _)

    -- A task with no registered handler goes to the dead-letter queue, and its key goes on saying that
    -- the task is in progress.
    pub process_no_handler :
        handlers_get name ≡ none
        → ((process_task redis json rt now (dumps p) s).0 ≡ no_handler)
          × (view (process_task redis json rt now (dumps p) s).1
              ≡ with_list queue_dlq
                  (dumps (record p {
                    dlq_timestamp = some now;
                    dlq_reason = some (codes "No handler registered.");
                  })
                    ∷ (view s).lists queue_dlq)
                  (with_string (processed task_id) (some in_progress) (view s)))
    unfolding run_task promote_to_dlq
    process_no_handler missing =
        let entry = dumps (record p {
          dlq_timestamp = some now;
          dlq_reason = some (codes "No handler registered.");
        }) in
        by_run _ _ _ (rw missing) (
          lpush_view queue_dlq entry _
          ∙ ap (λ t. with_list queue_dlq (entry ∷ t.lists queue_dlq) t) locked)

  -- A task that is done, or that is being executed, is skipped: nothing changes.
  pub process_duplicate :
      (state : Str)
      → (view s).strings (processed task_id) ≡ some state
      → (state ≡ success) ⊎ (state ≡ in_progress)
      → ((process_task redis json rt now (dumps p) s).0 ≡ duplicate)
        × (view (process_task redis json rt now (dumps p) s).1 ≡ view s)
  process_duplicate state old which =
      let (kept, same) = set_nx_old (processed task_id) in_progress state s old in
      let t = (set_nx (processed task_id) in_progress s).1 in
      let now_is : get (processed task_id) t ≡ some state =
        get_view (processed task_id) t ∙ ap (λ k. k.strings (processed task_id)) same ∙ old in
      let e = to_guard ∙ guard_skips state kept now_is which in
      (ap (λ r. r.0) e, ap (λ (r : Outcome × State). view r.1) e ∙ same)
