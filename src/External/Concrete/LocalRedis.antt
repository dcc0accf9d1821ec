-- ===== src/External/Concrete/LocalRedis.antt =====
-- Redis as a value: the delayed set is an association list, the other keys are functions.
use ai_secure_collaboration.Prelude.{
  ℕ, ◌≤◌, ◌≡◌, ap, inl, inr, Bool, true, false, Option, none, some, List, [], ◌∷◌, In, arith, Str,
  if◌then◌else◌, ◌++◌, refl, Option-cases, ◌↔◌, ◌∙◌, sym, fun_ext,
}
use ai_secure_collaboration.External.Concrete.SortedSet.{
  ZSet, score, without, range, score-without, range-Apart, range_sound, range_complete,
}
use ai_secure_collaboration.External.Redis.{
  StringKey, Keyspace, ListKey, list_key_eq, with_string, with_list, is_some, Redis, with_score,
  with_user,
}

pub record Local : Type 0 where
  pub strings : StringKey → Option Str
  pub lists : ListKey → List Str
  pub zset : ZSet
  pub online : ℕ → ℕ → Bool

abbrev pub empty_redis : Local
empty_redis = record { strings = λ k. none; lists = λ k. []; zset = []; online = λ w u. false }

unfoldable pub local_view : Local → Keyspace
local_view s = record {
  strings = s.strings;
  lists = s.lists;
  delayed = score s.zset;
  online = s.online;
}

unfoldable pub set_list : ListKey → List Str → Local → Local
set_list k l s = record s { lists = λ j. if list_key_eq j k then l else s.lists j }

-- The list without its last element, and that element.
unfoldable pub pop_last : List Str → Option (Str × List Str)
pop_last [] = none
pop_last (x ∷ xs) = elim (pop_last xs) [ none ↦ some (x, []) | some (v, rest) ↦ some (v, x ∷ rest) ]

pop_last_snoc : (xs rest : List Str) (v : Str) → pop_last xs ≡ some (v, rest) → xs ≡ rest ++ v ∷ []
unfolding pop_last
pop_last_snoc [] rest v h = cc
pop_last_snoc (x ∷ xs) rest v h = elim (Option-cases (pop_last xs)) [
  | inl e ↦ last xs e (rw e at h)
  | inr ((w, front), e) ↦
      let h' : ◌≡◌ {A = Option (Str × List Str)} (some (w, x ∷ front)) (some (v, rest)) =
        rw e at h in
      let tail : xs ≡ front ++ w ∷ [] = pop_last_snoc xs front w e in
      let a : w ≡ v = cc in let b : x ∷ front ≡ rest = cc in rw (← b, ← a) (ap (◌∷◌ x) tail)
]
  where
    last :
        (ys : List Str)
        → pop_last ys ≡ none
        → ◌≡◌ {A = Option (Str × List Str)} (some (x, [])) (some (v, rest))
        → x ∷ ys ≡ rest ++ v ∷ []
    last [] n q = let a : x ≡ v = cc in let b : [] ≡ rest = cc in rw (← b, ← a)
    last (y ∷ ys) n q = ground arith

pop_last-none : (xs : List Str) → pop_last xs ≡ none → xs ≡ []
unfolding pop_last
pop_last-none [] h = refl
pop_last-none (x ∷ xs) h = ground arith

unfoldable pub popped : ListKey → Local → Option (Str × List Str) → Option (Str × Local)
popped k s none = none
popped k s (some (v, rest)) = some (v, set_list k rest s)

unfoldable pub set_fresh : StringKey → Str → Local → Option Str → Bool × Local
set_fresh k v s none =
    (true, record s { strings = (with_string k (some v) (local_view s)).strings })
set_fresh k v s (some old) = (false, s)

pub set_fresh_new :
    (k : StringKey) (v : Str) (s : Local)
    → (local_view s).strings k ≡ none
    → ((set_fresh k v s (s.strings k)).0 ≡ true)
      × (local_view (set_fresh k v s (s.strings k)).1 ≡ with_string k (some v) (local_view s))
unfolding set_fresh local_view
set_fresh_new k v s h = rw h (refl, refl)

pub set_fresh_old :
    (k : StringKey) (v old : Str) (s : Local)
    → (local_view s).strings k ≡ some old
    → ((set_fresh k v s (s.strings k)).0 ≡ false)
      × (local_view (set_fresh k v s (s.strings k)).1 ≡ local_view s)
unfolding set_fresh local_view
set_fresh_old k v old s h = rw h (refl, refl)

pub zrem_law :
    (m : Str) (s : Local)
    → (is_some (score s.zset m) ≡ is_some ((local_view s).delayed m))
      × (local_view (record s { zset = without m s.zset }) ≡ with_score m none (local_view s))
unfolding local_view
zrem_law m s =
    (refl, ap (λ d. record (local_view s) { delayed = d }) (fun_ext λ j. score-without m j s.zset))

pub range_law :
    (now : ℕ) (m : Str) (s : Local)
    → In m (range now s.zset) ↔ ((c : ℕ) × ((local_view s).delayed m ≡ some c) × (c ≤ now))
unfolding local_view
range_law now m s = (range_sound now m s.zset, λ h. range_complete now m s.zset h.0 h.1 h.2)

unfoldable pub pop_front : ListKey → Local → Option (Str × Local)
pop_front k s = popped k s (pop_last (s.lists k))

pub popped_none : (k : ListKey) (s : Local) → pop_front k s ≡ none → (local_view s).lists k ≡ []
unfolding pop_front popped local_view
popped_none k s h = elim (Option-cases (pop_last (s.lists k))) [
  | inl e ↦ pop_last-none (s.lists k) e
  | inr ((v, rest), e) ↦ cc (e, h)
]

pub popped_some :
    (k : ListKey) (s s' : Local) (v : Str)
    → pop_front k s ≡ some (v, s')
    → (rest : List Str) × ((local_view s).lists k ≡ rest ++ v ∷ [])
      × (local_view s' ≡ with_list k rest (local_view s))
unfolding pop_front popped local_view set_list
popped_some k s s' v h = elim (Option-cases (pop_last (s.lists k))) [
  | inl e ↦ cc (e, h)
  | inr ((w, rest), e) ↦
      let h' : ◌≡◌ {A = Option (Str × Local)} (some (w, set_list k rest s)) (some (v, s')) =
        rw e at h in
      let a : w ≡ v = cc in
      let b : set_list k rest s ≡ s' = cc in
      (rest, pop_last_snoc (s.lists k) rest w e ∙ ap (λ x. rest ++ x ∷ []) a, ap local_view (sym b))
]

unfoldable pub write_string : StringKey → Option Str → Local → Local
write_string k v s = record s { strings = (with_string k v (local_view s)).strings }

unfoldable pub write_user : ℕ → ℕ → Bool → Local → Local
write_user w u b s = record s { online = (with_user w u b (local_view s)).online }

pub set_list_law :
    (k : ListKey) (v : Str) (s : Local)
    → local_view (set_list k (v ∷ s.lists k) s)
      ≡ with_list k (v ∷ (local_view s).lists k) (local_view s)
unfolding local_view set_list
set_list_law k v s = refl

pub write_string_law :
    (k : StringKey) (v : Option Str) (s : Local)
    → local_view (write_string k v s) ≡ with_string k v (local_view s)
unfolding local_view write_string
write_string_law k v s = refl

pub get_law : (k : StringKey) (s : Local) → s.strings k ≡ (local_view s).strings k
unfolding local_view
get_law k s = refl

pub zadd_law :
    (m : Str) (c : ℕ) (s : Local)
    → local_view (record s { zset = (m, c) ∷ s.zset }) ≡ with_score m (some c) (local_view s)
unfolding local_view score
zadd_law m c s = refl

pub write_user_law :
    (w u : ℕ) (b : Bool) (s : Local)
    → local_view (write_user w u b s) ≡ with_user w u b (local_view s)
unfolding local_view write_user
write_user_law w u b s = refl

abbrev pub local_redis : Redis
local_redis = record {
  State = Local;
  view = local_view;
  lpush = λ k v s. set_list k (v ∷ s.lists k) s;
  lpush_view = set_list_law;
  brpop = pop_front;
  brpop_none = popped_none;
  brpop_some = popped_some;
  set = λ k v s. write_string k (some v) s;
  set_view = λ k v s. write_string_law k (some v) s;
  set_nx = λ k v s. set_fresh k v s (s.strings k);
  set_nx_new = set_fresh_new;
  set_nx_old = set_fresh_old;
  get = λ k s. s.strings k;
  get_view = get_law;
  delete = λ k s. write_string k none s;
  delete_view = λ k s. write_string_law k none s;
  zadd = λ m c s. record s { zset = (m, c) ∷ s.zset };
  zadd_view = zadd_law;
  zrem = λ m s. (is_some (score s.zset m), record s { zset = without m s.zset });
  zrem_view = zrem_law;
  zrangebyscore = λ now s. range now s.zset;
  zrangebyscore_In = range_law;
  zrangebyscore_Apart = λ now s. range-Apart now s.zset;
  sadd = λ w u s. write_user w u true s;
  sadd_view = λ w u s. write_user_law w u true s;
  srem = λ w u s. write_user w u false s;
  srem_view = λ w u s. write_user_law w u false s;
}
