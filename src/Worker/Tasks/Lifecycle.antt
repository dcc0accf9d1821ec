-- ===== src/Worker/Tasks/Lifecycle.antt =====
-- A task that fails every time, from its first attempt to the dead-letter queue: rounds of the worker
-- and the scheduler.
use mathlib.Core.Path.{ap₂}
use ai_secure_collaboration.Prelude.{
  ℕ, zero, suc, ◌+◌, ◌^◌, ◌<◌, ◌≤◌, ◌≡◌, refl, sym, ap, ◌∙◌, inl, inr, none, some, List, [], ◌∷◌,
  ◌++◌, Str, str_eq_refl, Option-cases, arith,
}
use ai_secure_collaboration.External.Redis.{
  Redis, processed, queue_default, queue_dlq, with_string, with_list, with_score,
}
use ai_secure_collaboration.External.Json.{Json, Payload}
use ai_secure_collaboration.Worker.Queue.{or_empty, scheduler_poll}
use ai_secure_collaboration.Worker.Queue.Scheduler.{scheduler_poll_one, scheduler_poll_idle}
use ai_secure_collaboration.Worker.Tasks.{
  Handler, handlers_get, Runtime, run_handler, Outcome, retried, dead, process_task, worker_poll,
  failed, polled,
}
use ai_secure_collaboration.Worker.Tasks.Outcomes.{IsNamed, process_retried, process_dead}

snoc_singleton : (rest : List Str) (x v : Str) → x ∷ [] ≡ rest ++ v ∷ [] → (rest ≡ []) × (v ≡ x)
snoc_singleton [] x v h = (refl, cc)
snoc_singleton (y ∷ []) x v h = cc
snoc_singleton (y ∷ z ∷ rest) x v h = cc

pub repeat : ℕ → Outcome → List Outcome
repeat zero o = []
repeat (suc n) o = o ∷ repeat n o

module _ (redis : Redis) (json : Json) (rt : Runtime) where
  open redis use {State, view, brpop, brpop_none, brpop_some}
  open json use {dumps}

  -- The worker takes a task, time passes, and the scheduler promotes what is due.
  pub run_rounds : ℕ → (ℕ → ℕ) → ℕ → State → List Outcome × State
  run_rounds zero wait now s = ([], s)
  run_rounds (suc n) wait now s =
      let (o, t) = worker_poll redis json rt now s in
      let (os, u) = run_rounds n wait (now + wait now) (scheduler_poll redis (now + wait now) t) in
      (o ∷ os, u)

  -- The task is the only one in the default queue, nothing is delayed, and the task has no key.
  pub record IsReady (p : Payload) (task_id : Str) (dlq : List Str) (s : State) : Type 0 where
    pub queued : (view s).lists queue_default ≡ dumps p ∷ []
    pub nothing_delayed : (m : Str) → (view s).delayed m ≡ none
    pub unlocked : (view s).strings (processed task_id) ≡ none
    pub buried : (view s).lists queue_dlq ≡ dlq

  -- The queue is popped empty, and the task is processed there.
  worker_poll_one :
      (now : ℕ) (p : Payload) (task_id : Str) (dlq : List Str) (s : State)
      → IsReady p task_id dlq s
      → (t : State) × (worker_poll redis json rt now s ≡ process_task redis json rt now (dumps p) t)
        × (view t ≡ with_list queue_default [] (view s))
  unfolding worker_poll polled
  worker_poll_one now p task_id dlq s r = elim (Option-cases (brpop queue_default s)) [
    | inl e ↦ cc (brpop_none queue_default s e, r.queued)
    | inr ((v, t), e) ↦
        let (rest, split, after) = brpop_some queue_default s t v e in
        let (no_rest, same) = snoc_singleton rest (dumps p) v (sym r.queued ∙ split) in
        (t, rw e (rw same), after ∙ ap (λ l. with_list queue_default l (view s)) no_rest)
  ]

  module _ (task_id name error_msg : Str) (max_retries : ℕ) (handler : Handler)
      (registered : handlers_get name ≡ some handler) where
    -- What stays the same from one attempt to the next, with `retry_count` on the payload.
    pub record IsFailing (p : Payload) (retry_count : ℕ) : Type 0 where
      pub named : IsNamed p task_id name
      pub raises : run_handler rt handler (or_empty p.args) (or_empty p.kwargs) ≡ some error_msg
      pub counted : p.retry_count ≡ some retry_count
      pub bounded : p.max_retries ≡ some max_retries

    -- One round of a task with retries left.
    retry_round :
        (now later retry_count : ℕ) (p : Payload) (dlq : List Str) (s : State)
        → IsFailing p retry_count
        → IsReady p task_id dlq s
        → retry_count < max_retries
        → now + 2 ^ retry_count ≤ later
        → ((worker_poll redis json rt now s).0 ≡ retried)
          × IsReady
              (record p { retry_count = some (retry_count + 1) })
              task_id
              dlq
              (scheduler_poll redis later (worker_poll redis json rt now s).1)
    retry_round now later retry_count p dlq s f r less due =
        let (t, popped, before) = worker_poll_one now p task_id dlq s r in
        let q = record p { retry_count = some (retry_count + 1) } in
        let free : (view t).strings (processed task_id) ≡ none =
          ap (λ v. v.strings (processed task_id)) before ∙ r.unlocked in
        let (o, after) =
          process_retried redis json rt now t p task_id name f.named free handler registered
            error_msg f.raises retry_count max_retries f.counted f.bounded less in
        let u = (worker_poll redis json rt now s).1 in
        let at_u : view u
            ≡ with_score (dumps q) (some (now + 2 ^ retry_count))
                (with_string (processed task_id) none (with_list queue_default [] (view s))) =
          ap (λ x. view x.1) popped
          ∙ after
          ∙ ap
              (λ v.
                with_score (dumps q) (some (now + 2 ^ retry_count))
                  (with_string (processed task_id) none v))
              before in
        let (queue, none_left, same_dlq, same_strings) =
          scheduler_poll_one redis later (now + 2 ^ retry_count) (dumps q) u
            (λ m. ap (λ v. v.delayed m) at_u ∙ rw (r.nothing_delayed m)) due
            (ap (λ v. v.lists queue_default) at_u) in
        (
          ap (λ x. x.0) popped ∙ o,
          record {
            queued = queue;
            nothing_delayed = none_left;
            unlocked =
                same_strings (processed task_id)
                ∙ ap (λ v. v.strings (processed task_id)) at_u
                ∙ rw (str_eq_refl task_id);
            buried = same_dlq ∙ ap (λ v. v.lists queue_dlq) at_u ∙ r.buried;
          },
        )

    -- The round of the last attempt.
    dead_round :
        (now retry_count : ℕ) (p : Payload) (dlq : List Str) (s : State)
        → IsFailing p retry_count
        → IsReady p task_id dlq s
        → max_retries ≤ retry_count
        → let u = (worker_poll redis json rt now s).1 in
          ((worker_poll redis json rt now s).0 ≡ dead)
          × ((view u).lists queue_default ≡ [])
          × ((m : Str) → (view u).delayed m ≡ none)
          × ((view u).strings (processed task_id) ≡ some failed)
          × ((view u).lists queue_dlq
              ≡ dumps (record p { dlq_timestamp = some now; dlq_reason = some error_msg }) ∷ dlq)
    dead_round now retry_count p dlq s f r more =
        let (t, popped, before) = worker_poll_one now p task_id dlq s r in
        let free : (view t).strings (processed task_id) ≡ none =
          ap (λ v. v.strings (processed task_id)) before ∙ r.unlocked in
        let (o, after) =
          process_dead redis json rt now t p task_id name f.named free handler registered error_msg
            f.raises retry_count max_retries f.counted f.bounded more in
        let entry = dumps (record p { dlq_timestamp = some now; dlq_reason = some error_msg }) in
        let at_u : view (worker_poll redis json rt now s).1
            ≡ with_string (processed task_id) (some failed) (
                with_list queue_dlq (entry ∷ (view s).lists queue_dlq)
                  (with_list queue_default [] (view s))) =
          ap (λ x. view x.1) popped
          ∙ after
          ∙ ap
              (λ v.
                with_string (processed task_id) (some failed)
                  (with_list queue_dlq (entry ∷ v.lists queue_dlq) v))
              before in
        (
          ap (λ x. x.0) popped ∙ o,
          ap (λ v. v.lists queue_default) at_u,
          λ m. ap (λ v. v.delayed m) at_u ∙ r.nothing_delayed m,
          ap (λ v. v.strings (processed task_id)) at_u ∙ rw (str_eq_refl task_id),
          ap (λ v. v.lists queue_dlq) at_u ∙ ap (◌∷◌ entry) r.buried,
        )

    -- A registered task that raises at every attempt, with `n` retries left, alone in the queues and
    -- given time for its backoff after every attempt: it is retried `n` times and then dead. At the end
    -- the default queue and the delayed set are empty, its key says that it failed, and the dead-letter
    -- queue has got exactly one entry more: the task with its last retry count, the time and the error.
    pub failing_task_is_buried :
        (n now retry_count : ℕ) (wait : ℕ → ℕ) (p : Payload) (dlq : List Str) (s : State)
        → retry_count + n ≡ max_retries
        → ((t k : ℕ) → k < max_retries → 2 ^ k ≤ wait t)
        → IsFailing p retry_count
        → IsReady p task_id dlq s
        → let (outcomes, u) = run_rounds (suc n) wait now s in
          (at : ℕ) × (outcomes ≡ repeat n retried ++ dead ∷ [])
          × ((view u).lists queue_default ≡ [])
          × ((m : Str) → (view u).delayed m ≡ none)
          × ((view u).strings (processed task_id) ≡ some failed)
          × ((view u).lists queue_dlq
              ≡ dumps (record p {
                retry_count = some max_retries;
                dlq_timestamp = some at;
                dlq_reason = some error_msg;
              })
                ∷ dlq)
    unfolding run_rounds repeat
    failing_task_is_buried zero now retry_count wait p dlq s all slow f r =
        let last : retry_count ≡ max_retries = omega arith in
        let (o, empty, none_left, marked, entry) =
          dead_round now retry_count p dlq s f r (omega arith) in
        let t = (worker_poll redis json rt now s).1 in
        let same : scheduler_poll redis (now + wait now) t ≡ t =
          scheduler_poll_idle redis (now + wait now) t none_left in
        rw same (
          now,
          ap (λ x. x ∷ []) o,
          empty,
          none_left,
          marked,
          entry
              ∙ ap
                  (λ c.
                    dumps (record p {
                      retry_count = c;
                      dlq_timestamp = some now;
                      dlq_reason = some error_msg;
                    })
                    ∷ dlq)
                  (f.counted ∙ ap some last),
        )
    failing_task_is_buried (suc n) now retry_count wait p dlq s all slow f r =
        let later = now + wait now in
        let fast : retry_count < max_retries = omega arith in
        let due : now + 2 ^ retry_count ≤ later = omega (arith, slow now retry_count fast) in
        let (o, ready) = retry_round now later retry_count p dlq s f r fast due in
        let q = record p { retry_count = some (retry_count + 1) } in
        let g : IsFailing q (retry_count + 1) = record {
          named = record {
            has_id = f.named.has_id;
            has_name = f.named.has_name;
            id_full = f.named.id_full;
            name_full = f.named.name_full;
          };
          raises = f.raises;
          counted = refl;
          bounded = f.bounded;
        } in
        let (at, os, empty, none_left, marked, entry) =
          failing_task_is_buried n later (retry_count + 1) wait q dlq
            (scheduler_poll redis later (worker_poll redis json rt now s).1) (omega arith) slow g
            ready in
        (at, ap₂ ◌∷◌ o os, empty, none_left, marked, entry)
