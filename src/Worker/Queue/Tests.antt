-- ===== src/Worker/Queue/Tests.antt =====
-- The theorems about the scheduler, at a local Redis with two delayed tasks.
use ai_secure_collaboration.Prelude.{
  ◌+◌, ◌≤◌, ◌≡◌, ◌↔◌, ◌⊎◌, refl, inl, true, none, [], ◌∷◌, In, if◌then◌else◌, str_eq, filter,
}
use ai_secure_collaboration.External.Redis.{queue_default}
use ai_secure_collaboration.External.Concrete.SortedSet.{range}
use ai_secure_collaboration.External.Concrete.LocalRedis.{Local, empty_redis, local_redis}
use ai_secure_collaboration.Worker.Queue.{promote_all, scheduler_poll}
use ai_secure_collaboration.Worker.Queue.Scheduler.{
  count, is_due, scheduler_poll_moves, two_schedulers_duplicate,
}

-- Task 5 is due at 10, and task 6 at 20.
abbrev delayed_pair : Local
delayed_pair = record empty_redis { zset = (5 ∷ [], 10) ∷ (6 ∷ [], 20) ∷ [] }

scheduler_poll_moves_example :
    ((local_redis.view (scheduler_poll local_redis 15 delayed_pair)).delayed (5 ∷ []) ≡ (
      if is_due ((local_redis.view delayed_pair).delayed (5 ∷ [])) 15
      then none
      else (local_redis.view delayed_pair).delayed (5 ∷ [])))
    × (In
          (5 ∷ [])
          ((local_redis.view (scheduler_poll local_redis 15 delayed_pair)).lists queue_default)
        ↔ ((is_due ((local_redis.view delayed_pair).delayed (5 ∷ [])) 15 ≡ true)
            ⊎ In (5 ∷ []) ((local_redis.view delayed_pair).lists queue_default)))
scheduler_poll_moves_example = scheduler_poll_moves local_redis 15 (5 ∷ []) delayed_pair

two_schedulers_duplicate_example :
    let tasks = local_redis.zrangebyscore 15 delayed_pair in
    2 + count (5 ∷ []) ((local_redis.view delayed_pair).lists queue_default)
    ≤ count (5 ∷ []) (
        (local_redis.view
            (promote_all local_redis tasks (promote_all local_redis tasks delayed_pair))).lists
          queue_default)
unfolding range filter str_eq
two_schedulers_duplicate_example =
    two_schedulers_duplicate local_redis 15 (5 ∷ []) delayed_pair (inl refl)
