-- ===== src/External/Redis.antt =====
-- The Redis commands that the program sends, over a view of the keys that it uses: one law for each
-- command, from the command's documentation. Keys of the four families never have one name.
use ai_secure_collaboration.Prelude.{
  ℕ, ◌≤◌, ◌≡◌, ◌↔◌, Bool, true, false, ◌&&◌, Option, none, some, List, [], ◌∷◌, ◌++◌, ◌==◌, In, Str,
  str_eq, if◌then◌else◌,
}

-- `task:processed:{task_id}` and `refresh_token:{user_id}`
pub data StringKey : Type 0 where
  processed : Str → StringKey
  refresh_token : Str → StringKey

-- `queue:default` and `queue:dlq`
pub data ListKey : Type 0 where
  queue_default queue_dlq : ListKey

abbrev pub string_key_eq : StringKey → StringKey → Bool
string_key_eq (processed a) (processed b) = str_eq a b
string_key_eq (refresh_token a) (refresh_token b) = str_eq a b
string_key_eq _ _ = false

abbrev pub list_key_eq : ListKey → ListKey → Bool
list_key_eq queue_default queue_default = true
list_key_eq queue_dlq queue_dlq = true
list_key_eq _ _ = false

-- The strings, the lists from head to tail, the scores in `queue:delayed`, and for each workspace
-- the users in `workspace:{workspace_id}:online_users`.
pub record Keyspace : Type 0 where
  pub strings : StringKey → Option Str
  pub lists : ListKey → List Str
  pub delayed : Str → Option ℕ
  pub online : ℕ → ℕ → Bool

abbrev pub with_string : StringKey → Option Str → Keyspace → Keyspace
with_string k v s = record s { strings = λ j. if string_key_eq j k then v else s.strings j }

abbrev pub with_list : ListKey → List Str → Keyspace → Keyspace
with_list k l s = record s { lists = λ j. if list_key_eq j k then l else s.lists j }

abbrev pub with_score : Str → Option ℕ → Keyspace → Keyspace
with_score m c s = record s { delayed = λ j. if str_eq j m then c else s.delayed j }

abbrev pub with_user : ℕ → ℕ → Bool → Keyspace → Keyspace
with_user w u b s = record s { online = λ x y. if x == w && y == u then b else s.online x y }

abbrev pub is_some : Option ℕ → Bool
is_some none = false
is_some (some _) = true

-- No element stands twice.
abbrev pub Apart : List Str → Type 0
Apart [] = Unit
Apart (x ∷ xs) = (¬ In x xs) × Apart xs

pub record Redis : Type 1 where
  pub State : Type 0
  pub view : State → Keyspace
  -- LPUSH puts an element at the head, BRPOP takes the last one; `none` is its timeout.
  pub lpush : ListKey → Str → State → State
  pub lpush_view :
      (k : ListKey) (v : Str) (s : State)
      → view (lpush k v s) ≡ with_list k (v ∷ (view s).lists k) (view s)
  pub brpop : ListKey → State → Option (Str × State)
  pub brpop_none : (k : ListKey) (s : State) → brpop k s ≡ none → (view s).lists k ≡ []
  pub brpop_some :
      (k : ListKey) (s s' : State) (v : Str)
      → brpop k s ≡ some (v, s')
      → (rest : List Str) × ((view s).lists k ≡ rest ++ v ∷ [])
        × (view s' ≡ with_list k rest (view s))
  -- SET, SET NX, GET and DEL
  pub set : StringKey → Str → State → State
  pub set_view :
      (k : StringKey) (v : Str) (s : State) → view (set k v s) ≡ with_string k (some v) (view s)
  pub set_nx : StringKey → Str → State → Bool × State
  pub set_nx_new :
      (k : StringKey) (v : Str) (s : State)
      → (view s).strings k ≡ none
      → ((set_nx k v s).0 ≡ true) × (view (set_nx k v s).1 ≡ with_string k (some v) (view s))
  pub set_nx_old :
      (k : StringKey) (v old : Str) (s : State)
      → (view s).strings k ≡ some old
      → ((set_nx k v s).0 ≡ false) × (view (set_nx k v s).1 ≡ view s)
  pub get : StringKey → State → Option Str
  pub get_view : (k : StringKey) (s : State) → get k s ≡ (view s).strings k
  pub delete : StringKey → State → State
  pub delete_view : (k : StringKey) (s : State) → view (delete k s) ≡ with_string k none (view s)
  -- ZADD, ZREM (which tells whether the member was there) and ZRANGEBYSCORE from 0, on `queue:delayed`
  pub zadd : Str → ℕ → State → State
  pub zadd_view : (m : Str) (c : ℕ) (s : State) → view (zadd m c s) ≡ with_score m (some c) (view s)
  pub zrem : Str → State → Bool × State
  pub zrem_view :
      (m : Str) (s : State)
      → ((zrem m s).0 ≡ is_some ((view s).delayed m))
        × (view (zrem m s).1 ≡ with_score m none (view s))
  pub zrangebyscore : ℕ → State → List Str
  pub zrangebyscore_In :
      (now : ℕ) (m : Str) (s : State)
      → In m (zrangebyscore now s) ↔ ((c : ℕ) × ((view s).delayed m ≡ some c) × (c ≤ now))
  pub zrangebyscore_Apart : (now : ℕ) (s : State) → Apart (zrangebyscore now s)
  -- SADD and SREM on the online users of a workspace
  pub sadd : ℕ → ℕ → State → State
  pub sadd_view : (w u : ℕ) (s : State) → view (sadd w u s) ≡ with_user w u true (view s)
  pub srem : ℕ → ℕ → State → State
  pub srem_view : (w u : ℕ) (s : State) → view (srem w u s) ≡ with_user w u false (view s)
