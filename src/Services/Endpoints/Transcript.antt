-- ===== src/Services/Endpoints/Transcript.antt =====
-- The messages of a transcript.
use ai_secure_collaboration.Prelude.{
  ℕ, ◌≡◌, sym, ap, refl, ◌∙◌, inl, inr, List, Option, In, In-filter, In-filter_of, filter, length,
  reverse, reverse-reverse, Option-cases, ◌==◌, ==_iff, ◌↔◌,
}
use ai_secure_collaboration.External.Sql.{Sql, Descending}
use ai_secure_collaboration.External.Redis.{Redis}
use ai_secure_collaboration.Core.Action.{ok}
use ai_secure_collaboration.Models.{ChatMessage}
use ai_secure_collaboration.Repositories.{
  Session, get, room_repo, message_repo, select, get_by_workspace_and_user,
}
use ai_secure_collaboration.Services.Chat.{latest_messages, up_to}
use ai_secure_collaboration.Services.Endpoints.{transcript_messages, verify_ai_membership}

module _ (sql : Sql) (redis : Redis) (room_id : ℕ) where
  open sql use {rows}

  -- All stored messages of the room, newest first.
  pub record History (s : Session sql redis) (all : List ChatMessage) : Type 0 where
    pub newest_first : Descending (λ m. m.created_at) all
    pub of_room : (m : ChatMessage) → In m all ↔ (In m (rows s.db.messages) × (m.room_id ≡ room_id))
    pub once : length all ≡ length (filter (λ m. m.room_id == room_id) (rows s.db.messages))

  -- A transcript that is made has the latest messages of the room, newest first, and leaves the session as it
  -- is.
  pub transcript_messages-History :
      (current_user_id : ℕ) (limit : Option ℕ) (s s' : Session sql redis)
      (messages : List ChatMessage)
      → transcript_messages sql redis room_id current_user_id limit s ≡ (ok messages, s')
      → ((all : List ChatMessage) × History s all × (messages ≡ up_to limit all)) × (s' ≡ s)
  unfolding transcript_messages verify_ai_membership latest_messages
  transcript_messages-History current_user_id limit s s' messages h =
      elim (Option-cases (get sql (room_repo sql) room_id s.db)) [
        | inl e ↦ cc (e, h)
        | inr (room, e) ↦
            elim (Option-cases
              (get_by_workspace_and_user sql room.workspace_id current_user_id s.db)) [
                | inl f ↦ cc (e, f, h)
                | inr (mine, f) ↦
                    let test = λ (m : ChatMessage). m.room_id == room_id in
                    let found = select sql (message_repo sql) test s.db in
                    let ordered = sql.order_desc (λ m. m.created_at) found in
                    let shown : List ChatMessage = up_to limit ordered in
                    let run : transcript_messages sql redis room_id current_user_id limit s
                        ≡ (ok (reverse (reverse shown)), s) =
                      rw e (rw f refl) in
                    let both = sym run ∙ h in
                    let same : reverse (reverse shown) ≡ messages = cc both in
                    (
                      (
                        ordered,
                        record {
                          newest_first = sql.order_desc_Descending (λ m. m.created_at) found;
                          of_room = λ m. (
                            λ i.
                                let (stored, meets) =
                                  In-filter test m (rows s.db.messages)
                                    ((sql.order_desc_In (λ m. m.created_at) found m).0 i) in
                                (stored, (==_iff m.room_id room_id).0 meets),
                            λ (i, here). (sql.order_desc_In (λ m. m.created_at) found m).1 (
                                In-filter_of test m (rows s.db.messages) i
                                  ((==_iff m.room_id room_id).1 here)),
                          );
                          once = sql.order_desc_length (λ m. m.created_at) found;
                        },
                        sym same ∙ reverse-reverse shown,
                      ),
                      sym (ap (λ r. r.1) both),
                    )
              ]
      ]
