-- ===== src/Websocket/Listener.antt =====
-- One message of `RedisPubSubListener._listen_loop` in backend/app/websocket/manager.py. `loads` is
-- `json.loads`, where `none` is a JSONDecodeError.
pub mod Routing
mod Tests
use ai_secure_collaboration.Prelude.{
  ℕ, zero, suc, Bool, Option, none, some, List, [], ◌∷◌, get_elem?, Str, split_on,
}
use ai_secure_collaboration.External.Numerals.{Numerals}
use ai_secure_collaboration.Websocket.Manager.{ConnectionManager, Event, broadcast_local}

-- What `pubsub.listen()` gives.
pub data Message : Type 0 where
  pmessage : (channel payload : Str) → Message
  other : Message

module _ (numerals : Numerals) where
  -- `int(parts[3])`; `none` is an IndexError or a ValueError.
  unfoldable pub number_at : Option Str → Option (Option ℕ)
  number_at none = none
  number_at (some part) = numerals.number part

  unfoldable pub room_of : Str → Option (Option ℕ)
  unfolding number_at
  room_of channel = number_at (get_elem? (split_on 58 channel) 3)

  module _ {P : Type 0} (loads : Str → Option P) where
    -- What a message does: the payload and the sockets that get it, where it is broadcast, and the manager.
    -- `others` is what other tasks do while the sends are awaited; a room with a negative number, which
    -- a client may name in the path, is not in the model: here it is not dispatched.
    unfoldable pub dispatch :
        (ℕ → Bool)
        → List Event
        → Option (Option ℕ)
        → Option P
        → ConnectionManager
        → Option (P × List ℕ) × ConnectionManager
    dispatch sends others (some (some room_id)) (some payload) m =
        let (sockets, m') = broadcast_local sends others room_id m in (some (payload, sockets), m')
    dispatch sends others _ _ m = (none, m)

    unfoldable pub on_message :
        (ℕ → Bool)
        → List Event
        → Message
        → ConnectionManager
        → Option (P × List ℕ) × ConnectionManager
    unfolding room_of dispatch
    on_message sends others (pmessage channel payload) m =
        dispatch sends others (room_of channel) (loads payload) m
    on_message sends others other m = (none, m)
