-- ===== src/Websocket/Endpoint/Delivery.antt =====
-- A chat message, from the client that sends it to the sockets of the room.
use ai_secure_collaboration.Prelude.{
  ℕ, ◌≡◌, ◌↔◌, ◌⊎◌, refl, sym, ap, ◌∙◌, inl, inr, Bool, false, ◌&&◌, Option, some, List, [], ◌∷◌,
  ◌++◌, Str, codes, strip, is_empty, str_eq_refl, ==_iff, In, Option-cases, head?-filter,
  head?-filter-none,
}
use ai_secure_collaboration.Prelude.Dict.{contains}
use ai_secure_collaboration.External.Sql.{Sql}
use ai_secure_collaboration.External.Redis.{Redis}
use ai_secure_collaboration.External.Numerals.{Numerals}
use ai_secure_collaboration.Core.Action.{Result-cases, ok}
use ai_secure_collaboration.Models.{User, ChatMessage, message_schema}
use ai_secure_collaboration.Repositories.{Session, get, message_repo, create, stored, commit}
use ai_secure_collaboration.Services.Chat.{Wire, Published, message, publish_event, persist_message}
use ai_secure_collaboration.Websocket.Manager.{ConnectionManager, Event}
use ai_secure_collaboration.Websocket.Manager.View.{has}
use ai_secure_collaboration.Websocket.Listener.{pmessage, on_message}
use ai_secure_collaboration.Websocket.Listener.Routing.{published_reaches_room}
use ai_secure_collaboration.Websocket.Endpoint.{
  Node, going, text, dict, author_of, publish_message, send_content, receive_message, receive,
  is_type, publish,
}

module _ (sql : Sql) (redis : Redis) where
  open sql use {rows, insert_some}

  -- What `persist_message` commits and gives back.
  pub record Persisted (now room_id user_id : ℕ) (content : Str) (s s' : Session sql redis)
      (msg : ChatMessage) : Type 0 where
    pub fields :
        (msg.room_id ≡ room_id)
        × (msg.user_id ≡ user_id)
        × (msg.content ≡ content)
        × (msg.created_at ≡ now)
    pub durable_messages :
        (x : ChatMessage)
        → In x (rows s'.durable.messages) ↔ ((x ≡ msg) ⊎ In x (rows s.db.messages))
    pub others : s'.durable ≡ record s.db { messages = s'.durable.messages }

  persist_message-Persisted :
      (now room_id user_id : ℕ) (content : Str) (s s' : Session sql redis)
      (found : Option ChatMessage)
      → persist_message sql redis now room_id user_id content s ≡ (ok found, s')
      → (msg : ChatMessage) × (found ≡ some msg) × Persisted now room_id user_id content s s' msg
  unfolding persist_message create stored commit
  persist_message-Persisted now room_id user_id content s s' found h =
      let make : ℕ → ChatMessage = λ id. record {
        id = id;
        room_id = room_id;
        user_id = user_id;
        content = content;
        created_at = now;
      } in
      elim (Option-cases (sql.insert message_schema make s.db.messages)) [
        | inl clash ↦ cc (clash, h)
        | inr ((row, t), k) ↦
            let d = record s.db { messages = t } in
            let (id, made, members, fresh) =
              insert_some message_schema make s.db.messages t row k in
            let there : In row (rows t) = (members row).1 (inl refl) in
            elim (Option-cases (get sql (message_repo sql) row.id d)) [
              | inl gone ↦
                  cc (head?-filter-none _ row (rows t) gone there, (==_iff row.id row.id).1 refl)
              | inr (msg, e) ↦
                  let run : persist_message sql redis now room_id user_id content s
                      ≡ (ok (some msg), record s { db = d; durable = d }) =
                    rw k (rw e refl) in
                  let both = sym run ∙ h in
                  let same : some msg ≡ found = cc both in
                  let saved : s'.durable ≡ d = sym (ap (λ r. r.1.durable) both) in
                  let (stored_msg, key) = head?-filter _ msg (rows t) e in
                  let own : msg.id ≡ id = (==_iff msg.id row.id).0 key ∙ ap (λ r. r.id) made in
                  let is_row : msg ≡ row = elim ((members msg).0 stored_msg) [
                    | inl same_row ↦ same_row
                    | inr old ↦ absurd ((fresh msg old).0 own)
                  ] in
                  let new : msg ≡ make id = is_row ∙ made in
                  (
                    msg,
                    sym same,
                    record {
                      fields = (
                        ap (λ m. m.room_id) new,
                        ap (λ m. m.user_id) new,
                        ap (λ m. m.content) new,
                        ap (λ m. m.created_at) new,
                      );
                      durable_messages = λ x. rw saved (rw is_row (members x));
                      others = rw saved;
                    },
                  )
            ]
      ]

  module _ (numerals : Numerals) (wire : Wire) (workspace_id room_id : ℕ) (user : User) where
    -- The way of a message: what is stored, what is published, and whom that reaches on a node.
    pub record Sent (now : ℕ) (content : Str) (n n' : Node sql redis) : Type 0 where
      pub msg : ChatMessage
      pub persisted :
          (s' : Session sql redis) × (n'.db ≡ s'.durable)
          × Persisted now room_id user.id content
              (record { db = n.db; durable = n.db; cache = some n.cache })
              s'
              msg
      pub event : Published
      pub published : n' ≡ record n { db = n'.db; published = n.published ++ (event ∷ []) }
      pub reaches :
          (sends : ℕ → Bool) (others : List Event) (m : ConnectionManager)
          → (sockets : List ℕ) × ((on_message numerals wire.loads sends others
                (pmessage event.channel event.payload)
                m).0
              ≡ some (message msg (author_of sql redis user), sockets))
            × ((w : ℕ) → contains w sockets ≡ (sends w && has m room_id w))

    -- A chat message whose text is not blank, and after which the loop goes on: the stripped text is committed
    -- as a message of the user in the room, and nothing else is stored; one event is published, which on every
    -- node reaches exactly the sockets of the room whose send succeeds, with that message and its author.
    pub receive-Sent :
        (now : ℕ) (content : Str) (is_typing : Option Str) (n n' : Node sql redis)
        → is_empty (strip content) ≡ false
        → receive sql redis numerals wire workspace_id room_id user now
            (some (dict (some (codes "message")) (text content) is_typing))
            n
          ≡ going n'
        → Sent now (strip content) n n'
    unfolding receive receive_message send_content publish_message is_type publish
    receive-Sent now content is_typing n n' filled h =
        let s : Session sql redis = record { db = n.db; durable = n.db; cache = some n.cache } in
        let flow =
          publish_message sql redis numerals wire workspace_id room_id user
            (persist_message sql redis now room_id user.id (strip content) s) n in
        let chat = str_eq_refl (codes "message") in
        let opened : receive sql redis numerals wire workspace_id room_id user now
              (some (dict (some (codes "message")) (text content) is_typing)) n
            ≡ flow =
          rw chat (rw filled refl) in
        let sent : flow ≡ going n' = sym opened ∙ h in
        elim (Result-cases (persist_message sql redis now room_id user.id (strip content) s)) [
          | inl (e, s', r) ↦ cc (r, sent)
          | inr (found, s', r) ↦
              let (msg, is_some, persisted) =
                persist_message-Persisted now room_id user.id (strip content) s s' found r in
              let event =
                publish_event numerals wire workspace_id room_id
                  (message msg (author_of sql redis user)) in
              let run : flow ≡ going (publish sql redis event (record n { db = s'.durable })) =
                rw r (rw is_some refl) in
              let ended_at : publish sql redis event (record n { db = s'.durable }) ≡ n' =
                cc (sym run ∙ sent) in
              record {
                msg = msg;
                persisted = (s', sym (ap (λ q. q.db) ended_at), persisted);
                event = event;
                published = rw (← ended_at) refl;
                reaches = λ sends others m.
                    published_reaches_room numerals wire sends others m workspace_id room_id
                      (message msg (author_of sql redis user));
              }
        ]
