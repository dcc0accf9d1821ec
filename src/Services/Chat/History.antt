-- ===== src/Services/Chat/History.antt =====
-- The history of a room: the latest messages, oldest first, for members of its workspace.
use ai_secure_collaboration.Prelude.{
  ℕ, ◌≡◌, sym, ap, refl, ◌∙◌, inl, inr, In, arith, List, Option-cases, head?-filter, some,
}
use ai_secure_collaboration.External.Sql.{Sql}
use ai_secure_collaboration.External.Redis.{Redis}
use ai_secure_collaboration.Core.Action.{ok}
use ai_secure_collaboration.Models.{ChatRoom, ChatMessage, WorkspaceMember}
use ai_secure_collaboration.Repositories.{Session, get, room_repo, get_by_workspace_and_user}
use ai_secure_collaboration.Services.Chat.{
  get_room_history, latest_messages, verify_chat_membership,
}

module _ (sql : Sql) (redis : Redis) (room_id current_user_id limit : ℕ) where
  open sql use {rows}

  -- A history that is returned: the room is stored, the caller has a membership of its workspace, the
  -- messages are the latest ones of the room, and nothing is changed.
  pub get_room_history_guarded :
      (s s' : Session sql redis) (messages : List ChatMessage)
      → get_room_history sql redis room_id current_user_id limit s ≡ (ok messages, s')
      → ((room : ChatRoom) × (mine : WorkspaceMember) × In room (rows s.db.rooms)
          × (room.id ≡ room_id)
          × In mine (rows s.db.members)
          × (mine.workspace_id ≡ room.workspace_id)
          × (mine.user_id ≡ current_user_id))
        × (messages ≡ latest_messages sql room_id (some limit) s.db)
        × (s' ≡ s)
  unfolding get_room_history verify_chat_membership
  get_room_history_guarded s s' messages h =
      elim (Option-cases (get sql (room_repo sql) room_id s.db)) [
        | inl e ↦ cc (e, h)
        | inr (room, e) ↦
            elim (Option-cases
              (get_by_workspace_and_user sql room.workspace_id current_user_id s.db)) [
                | inl f ↦ cc (e, f, h)
                | inr (mine, f) ↦
                    let run : get_room_history sql redis room_id current_user_id limit s
                        ≡ (ok (latest_messages sql room_id (some limit) s.db), s) =
                      rw e (rw f refl) in
                    let both = sym run ∙ h in
                    let (found, key) = head?-filter _ room (rows s.db.rooms) e in
                    let (stored, keys) = head?-filter _ mine (rows s.db.members) f in
                    let same : latest_messages sql room_id (some limit) s.db ≡ messages = cc both in
                    (
                      (
                        room,
                        mine,
                        found,
                        ground (arith, key),
                        stored,
                        ground (arith, keys),
                        ground (arith, keys),
                      ),
                      sym same,
                      sym (ap (λ r. r.1) both),
                    )
              ]
      ]
