-- ===== src/Worker/Queue/Scheduler.antt =====
-- One round of the scheduler, and two schedulers that read the same tasks: `_scheduler_loop` of
-- backend/app/workers/scheduler.py.
use ai_secure_collaboration.Prelude.{
  ℕ, ◌+◌, ◌≤◌, ◌≡◌, ◌↔◌, ◌⊎◌, inl, inr, refl, sym, ap, ◌∙◌, Bool, true, false, Option, none, some,
  List, [], ◌∷◌, arith, Str, In, str_eq, str_eq_refl, str_eq_iff, leb, if◌then◌else◌, Bool-cases,
  Option-cases,
}
use ai_secure_collaboration.External.Redis.{
  Redis, StringKey, queue_default, queue_dlq, with_list, with_score, Apart,
}
use ai_secure_collaboration.Worker.Queue.{promote, promote_all, scheduler_poll}

-- How often a text stands in a list.
pub count : Str → List Str → ℕ
count m [] = 0
count m (x ∷ xs) = (if str_eq m x then 1 else 0) + count m xs

count_of_In : (m : Str) (xs : List Str) → In m xs → 1 ≤ count m xs
unfolding count
count_of_In m [] h = absurd h
count_of_In m (x ∷ xs) (inl e) = ground (arith, (str_eq_iff m x).1 e)
count_of_In m (x ∷ xs) (inr h) = ground (arith, count_of_In m xs h)

-- The score is there and not later than `now`.
abbrev pub is_due : Option ℕ → ℕ → Bool
is_due none now = false
is_due (some c) now = leb c now

eq_singleton :
    (t : Str) (xs : List Str) → Apart xs → In t xs → ((m : Str) → In m xs → m ≡ t) → xs ≡ t ∷ []
eq_singleton t [] a i only = absurd i
eq_singleton t (x ∷ []) a i only = cc (only x (inl refl))
eq_singleton t (x ∷ y ∷ xs) a i only =
    absurd (a.0 (inl (only x (inl refl) ∙ sym (only y (inr (inl refl))))))

eq_nil : (xs : List Str) → ((m : Str) → ¬ In m xs) → xs ≡ []
eq_nil [] h = refl
eq_nil (x ∷ xs) h = absurd (h x (inl refl))

module _ (redis : Redis) where
  open redis use {
    State, view, lpush_view, zrem_view, zrem, zrangebyscore, zrangebyscore_In, zrangebyscore_Apart,
  }

  pub view-promote :
      (t : Str) (s : State)
      → view (promote redis t s)
        ≡ with_list queue_default (t ∷ (view s).lists queue_default) (with_score t none (view s))
  unfolding promote
  view-promote t s =
      lpush_view queue_default t (zrem t s).1
      ∙ ap (λ k. with_list queue_default (t ∷ k.lists queue_default) k) (zrem_view t s).1

  -- Promotion writes only the default queue and the delayed set.
  pub promote_all_keeps :
      (tasks : List Str) (s : State)
      → ((k : StringKey) → (view (promote_all redis tasks s)).strings k ≡ (view s).strings k)
        × ((view (promote_all redis tasks s)).lists queue_dlq ≡ (view s).lists queue_dlq)
  unfolding promote_all
  promote_all_keeps [] s = (λ k. refl, refl)
  promote_all_keeps (t ∷ tasks) s =
      let (strings, dlq) = promote_all_keeps tasks (promote redis t s) in
      (
        λ k. strings k ∙ ap (λ v. v.strings k) (view-promote t s),
        dlq ∙ ap (λ v. v.lists queue_dlq) (view-promote t s),
      )

  count-promote_all :
      (m : Str) (tasks : List Str) (s : State)
      → count m ((view (promote_all redis tasks s)).lists queue_default)
        ≡ count m tasks + count m ((view s).lists queue_default)
  unfolding promote_all count
  count-promote_all m [] s = omega arith
  count-promote_all m (t ∷ tasks) s = omega (
    arith,
    count-promote_all m tasks (promote redis t s),
    ap (λ v. count m (v.lists queue_default)) (view-promote t s),
  )

  promote_all_In :
      (m : Str) (tasks : List Str) (s : State)
      → In m ((view (promote_all redis tasks s)).lists queue_default)
        ↔ (In m tasks ⊎ In m ((view s).lists queue_default))
  unfolding promote_all
  promote_all_In m [] s = (λ h. inr h, λ h. elim h [ inl a ↦ absurd a | inr b ↦ b ])
  promote_all_In m (t ∷ tasks) s =
      let ih = promote_all_In m tasks (promote redis t s) in
      let e : (view (promote redis t s)).lists queue_default ≡ t ∷ (view s).lists queue_default =
        ap (λ v. v.lists queue_default) (view-promote t s) in
      let there : In m ((view (promote redis t s)).lists queue_default)
          → (m ≡ t) ⊎ In m ((view s).lists queue_default) =
        λ h. rw e at h in
      (
        λ h. elim (ih.0 h) [
          | inl a ↦ inl (inr a)
          | inr b ↦ elim (there b) [ inl q ↦ inl (inl q) | inr r ↦ inr r ]
        ],
        λ h. elim h [
          | inl a ↦ elim a [ inl q ↦ ih.1 (inr (rw e (inl q))) | inr r ↦ ih.1 (inl r) ]
          | inr b ↦ ih.1 (inr (rw e (inr b)))
        ],
      )

  promote_all_delayed :
      (m : Str) (tasks : List Str) (s : State)
      → ((view s).delayed m ≡ none) ⊎ In m tasks
      → (view (promote_all redis tasks s)).delayed m ≡ none
  unfolding promote_all
  promote_all_delayed m [] s h = elim h [ inl e ↦ e | inr a ↦ absurd a ]
  promote_all_delayed m (t ∷ tasks) s h = promote_all_delayed m tasks (promote redis t s) (elim h [
    | inl e ↦ inl (ap (λ v. v.delayed m) (view-promote t s) ∙ stays e)
    | inr a ↦ elim a [
      | inl q ↦ inl (ap (λ v. v.delayed m) (view-promote t s) ∙ gone q)
      | inr r ↦ inr r
    ]
  ])
    where
      stays : (view s).delayed m ≡ none → (if str_eq m t then none else (view s).delayed m) ≡ none
      stays e = ground arith

      gone : m ≡ t → (if str_eq m t then none else (view s).delayed m) ≡ none
      gone q = ground (arith, (str_eq_iff m t).1 q)

  promote_all_other :
      (m : Str) (tasks : List Str) (s : State)
      → ¬ In m tasks
      → (view (promote_all redis tasks s)).delayed m ≡ (view s).delayed m
  unfolding promote_all
  promote_all_other m [] s h = refl
  promote_all_other m (t ∷ tasks) s h =
      promote_all_other m tasks (promote redis t s) (λ r. h (inr r))
      ∙ ap (λ v. v.delayed m) (view-promote t s)
      ∙ other
    where
      other : (if str_eq m t then none else (view s).delayed m) ≡ (view s).delayed m
      other = elim (Bool-cases (str_eq m t)) [
        | inl e ↦ absurd (h (inl ((str_eq_iff m t).0 e)))
        | inr e ↦ rw e
      ]

  due_In :
      (now : ℕ) (m : Str) (s : State)
      → is_due ((view s).delayed m) now ≡ true
      → In m (zrangebyscore now s)
  due_In now m s d = elim (Option-cases ((view s).delayed m)) [
    | inl e ↦ cc e
    | inr (c, e) ↦ (zrangebyscore_In now m s).1 (c, e, ground arith)
  ]

  In_due :
      (now : ℕ) (m : Str) (s : State)
      → In m (zrangebyscore now s)
      → is_due ((view s).delayed m) now ≡ true
  In_due now m s i = let (c, e, l) = (zrangebyscore_In now m s).0 i in ground arith

  -- After one undisturbed round every task that is due has left the delayed set, every other task
  -- has stayed in it with its score, and the default queue holds the tasks that it held and the ones
  -- that were due.
  pub scheduler_poll_moves :
      (now : ℕ) (m : Str) (s : State)
      → ((view (scheduler_poll redis now s)).delayed m
          ≡ (if is_due ((view s).delayed m) now then none else (view s).delayed m))
        × (In m ((view (scheduler_poll redis now s)).lists queue_default)
            ↔ ((is_due ((view s).delayed m) now ≡ true) ⊎ In m ((view s).lists queue_default)))
  unfolding scheduler_poll
  scheduler_poll_moves now m s =
      let tasks = zrangebyscore now s in
      let both = promote_all_In m tasks s in
      (
        elim (Bool-cases (is_due ((view s).delayed m) now)) [
          | inl d ↦ promote_all_delayed m tasks s (inr (due_In now m s d)) ∙ sym (rw d)
          | inr d ↦ promote_all_other m tasks s (λ i. cc (In_due now m s i, d)) ∙ sym (rw d)
        ],
        (
          λ h. elim (both.0 h) [ inl a ↦ inl (In_due now m s a) | inr b ↦ inr b ],
          λ h. elim h [ inl d ↦ both.1 (inl (due_In now m s d)) | inr b ↦ both.1 (inr b) ],
        ),
      )

  -- Where one task alone is delayed, and is due, and the default queue is empty, the round leaves the
  -- task alone in the default queue and nothing in the delayed set.
  pub scheduler_poll_one :
      (now c : ℕ) (t : Str) (s : State)
      → ((m : Str) → (view s).delayed m ≡ (if str_eq m t then some c else none))
      → c ≤ now
      → (view s).lists queue_default ≡ []
      → ((view (scheduler_poll redis now s)).lists queue_default ≡ t ∷ [])
        × ((m : Str) → (view (scheduler_poll redis now s)).delayed m ≡ none)
        × ((view (scheduler_poll redis now s)).lists queue_dlq ≡ (view s).lists queue_dlq)
        × ((k : StringKey) → (view (scheduler_poll redis now s)).strings k ≡ (view s).strings k)
  unfolding scheduler_poll
  scheduler_poll_one now c t s alone due empty =
      let tasks = zrangebyscore now s in
      let one : tasks ≡ t ∷ [] =
        eq_singleton t tasks (zrangebyscore_Apart now s)
          (due_In now t s (ground (arith, alone t, str_eq_refl t)))
          (λ m i. ground (arith, alone m, In_due now m s i, str_eq_iff m t)) in
      let (strings, dlq) = promote_all_keeps tasks s in
      (
        rw one (
            unfold promote_all in
            (ap (λ v. v.lists queue_default) (view-promote t s) ∙ ap (◌∷◌ t) empty)),
        λ m. elim (Bool-cases (str_eq m t)) [
          | inl e ↦ promote_all_delayed m tasks s (inr (rw one (inl ((str_eq_iff m t).0 e))))
          | inr e ↦ promote_all_delayed m tasks s (inl (alone m ∙ rw e))
        ],
        dlq,
        strings,
      )

  -- Where nothing is delayed, the round changes nothing.
  pub scheduler_poll_idle :
      (now : ℕ) (s : State)
      → ((m : Str) → (view s).delayed m ≡ none)
      → scheduler_poll redis now s ≡ s
  unfolding scheduler_poll promote_all
  scheduler_poll_idle now s nothing =
      rw (eq_nil (zrangebyscore now s) (λ m i. cc (In_due now m s i, nothing m)))

  -- Where two schedulers have read the same due tasks, each of these tasks is pushed twice: ZREM finds
  -- it once, but LPUSH is sent both times.
  pub two_schedulers_duplicate :
      (now : ℕ) (m : Str) (s : State)
      → In m (zrangebyscore now s)
      → let tasks = zrangebyscore now s in
        2 + count m ((view s).lists queue_default)
        ≤ count m ((view (promote_all redis tasks (promote_all redis tasks s))).lists queue_default)
  two_schedulers_duplicate now m s i =
      let tasks = zrangebyscore now s in
      omega (
        arith,
        count-promote_all m tasks (promote_all redis tasks s),
        count-promote_all m tasks s,
        count_of_In m tasks i,
      )
