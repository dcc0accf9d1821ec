-- ===== src/Websocket/Listener/Routing.antt =====
-- Where a published event arrives.
use ai_secure_collaboration.Prelude.{
  ℕ, ◌≡◌, refl, ap, ◌∙◌, Bool, ◌&&◌, some, List, [], ◌∷◌, get_elem?, codes, split_on,
  split_on-append, split_on-last, has_code,
}
use ai_secure_collaboration.Prelude.Dict.{contains}
use ai_secure_collaboration.External.Numerals.{Numerals}
use ai_secure_collaboration.Services.Chat.{Wire, Published, channel_of, publish_event}
use ai_secure_collaboration.Services.Chat
use ai_secure_collaboration.Websocket.Manager.{ConnectionManager, Event, broadcast_local}
use ai_secure_collaboration.Websocket.Manager.View.{has}
use ai_secure_collaboration.Websocket.Manager.Broadcast.{broadcast_delivers}
use ai_secure_collaboration.Websocket.Listener.{pmessage, room_of, number_at, dispatch, on_message}

module _ (numerals : Numerals) (wire : Wire) where
  split_on-channel :
      (workspace_id room_id : ℕ)
      → split_on 58 (channel_of numerals wire workspace_id room_id)
        ≡ codes "workspace" ∷ numerals.str workspace_id ∷ codes "room" ∷ numerals.str room_id ∷ []
  unfolding channel_of has_code codes
  split_on-channel workspace_id room_id =
      split_on-append 58 (codes "workspace") _ refl
      ∙ ap (λ r. codes "workspace" ∷ r)
          (split_on-append 58 (numerals.str workspace_id) _ (numerals.has_code-str workspace_id)
            ∙ ap (λ r. numerals.str workspace_id ∷ r)
                (split_on-append 58 (codes "room") _ refl
                  ∙ ap (λ r. codes "room" ∷ r)
                      (split_on-last 58 (numerals.str room_id) (numerals.has_code-str room_id))))

  -- The listener reads the room back from the channel that an event was published on.
  pub room_of-channel :
      (workspace_id room_id : ℕ)
      → room_of numerals (channel_of numerals wire workspace_id room_id) ≡ some (some room_id)
  unfolding room_of number_at
  room_of-channel workspace_id room_id =
      ap (λ parts. number_at numerals (get_elem? parts 3)) (split_on-channel workspace_id room_id)
      ∙ numerals.number-str room_id

  module _ (sends : ℕ → Bool) (others : List Event) (m : ConnectionManager) where
    -- A published event is broadcast as it was, in the room that it was published for.
    pub on_message-publish :
        (workspace_id room_id : ℕ) (event : Chat.Event)
        → let p = publish_event numerals wire workspace_id room_id event in
          on_message numerals wire.loads sends others (pmessage p.channel p.payload) m ≡ (
            some (event, (broadcast_local sends others room_id m).0),
            (broadcast_local sends others room_id m).1,
          )
    unfolding on_message publish_event dispatch
    on_message-publish workspace_id room_id event =
        rw (room_of-channel workspace_id room_id, wire.loads-dumps event) refl

    -- On every node an event that was published for a room reaches, unchanged, exactly the sockets that are
    -- in a room of this number there and whose send succeeds, whatever workspace it was published for: the
    -- events of room 0, which tell who is online in a workspace, reach the sockets of all workspaces.
    pub published_reaches_room :
        (workspace_id room_id : ℕ) (event : Chat.Event)
        → let p = publish_event numerals wire workspace_id room_id event in
          (sockets : List ℕ) × ((on_message numerals wire.loads sends others
              (pmessage p.channel p.payload)
              m).0
            ≡ some (event, sockets))
          × ((w : ℕ) → contains w sockets ≡ (sends w && has m room_id w))
    published_reaches_room workspace_id room_id event = (
      (broadcast_local sends others room_id m).0,
      ap (λ r. r.0) (on_message-publish workspace_id room_id event),
      λ w. broadcast_delivers sends others room_id m w,
    )
