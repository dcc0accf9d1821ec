-- ===== src/Services/Chat/LocalWire.antt =====
-- A concrete encoding of events that meets the law asked of the JSON library: the numbers and texts of an
-- event, each text with its length before it.
use ai_secure_collaboration.Prelude.{
  ℕ, zero, suc, ◌≡◌, refl, Bool, true, false, Option, none, some, [], ◌∷◌, ◌++◌, length, take, drop,
  Str, take-append, drop-append,
}
use ai_secure_collaboration.Models.{UserRole}
use ai_secure_collaboration.Services.Chat.{Event, online, offline, message, typing, Wire}

unfoldable pub put : Str → Str → Str
put s rest = length s ∷ (s ++ rest)

unfoldable pub take_text : Str → Str × Str
take_text [] = ([], [])
take_text (n ∷ text) = (take n text, drop n text)

unfoldable pub role_code : UserRole → ℕ
role_code UserRole.admin = 0
role_code UserRole.member = 1

unfoldable pub role_of : ℕ → UserRole
role_of zero = UserRole.admin
role_of (suc n) = UserRole.member

unfoldable pub flag : Bool → ℕ
flag true = 1
flag false = 0

unfoldable pub is_set : ℕ → Bool
is_set zero = false
is_set (suc n) = true

unfoldable pub name_code : Option Str → Str
name_code none = []
name_code (some name) = 1 ∷ name

unfoldable pub name_of : Str → Option Str
name_of [] = none
name_of (n ∷ name) = some name

unfoldable pub dumps : Event → Str
unfolding put role_code flag name_code
dumps (online u) = 0 ∷ u ∷ []
dumps (offline u) = 1 ∷ u ∷ []
dumps (typing u name is_typing) = 2 ∷ u ∷ put name is_typing
dumps (message m a) =
    3
    ∷ m.id
    ∷ m.room_id
    ∷ m.user_id
    ∷ m.created_at
    ∷ a.id
    ∷ role_code a.role
    ∷ flag a.is_active
    ∷ put m.content (put a.email (name_code a.full_name))

unfoldable pub load_message : Str → Option Event
unfolding role_of is_set name_of take_text
load_message (id ∷ room_id ∷ user_id ∷ at ∷ author ∷ role ∷ active ∷ texts) =
    let (content, more) = take_text texts in
    let (email, name) = take_text more in
    some (
      message
        (record {
          id = id;
          room_id = room_id;
          user_id = user_id;
          content = content;
          created_at = at;
        })
        (record {
          id = author;
          email = email;
          full_name = name_of name;
          role = role_of role;
          is_active = is_set active;
        }))
load_message _ = none

unfoldable pub load_typing : ℕ → Str × Str → Option Event
load_typing u (name, is_typing) = some (typing u name is_typing)

unfoldable pub loads : Str → Option Event
unfolding load_message load_typing take_text
loads [] = none
loads (kind ∷ []) = none
loads (zero ∷ u ∷ s) = some (online u)
loads (suc zero ∷ u ∷ s) = some (offline u)
loads (suc (suc zero) ∷ u ∷ s) = load_typing u (take_text s)
loads (suc (suc (suc kind)) ∷ u ∷ s) = load_message (u ∷ s)

role_of-role_code : (r : UserRole) → role_of (role_code r) ≡ r
unfolding role_of role_code
role_of-role_code UserRole.admin = refl
role_of-role_code UserRole.member = refl

is_set-flag : (b : Bool) → is_set (flag b) ≡ b
unfolding is_set flag
is_set-flag true = refl
is_set-flag false = refl

name_of-name_code : (o : Option Str) → name_of (name_code o) ≡ o
unfolding name_of name_code
name_of-name_code none = refl
name_of-name_code (some name) = refl

pub loads-dumps : (e : Event) → loads (dumps e) ≡ some e
unfolding loads dumps load_message load_typing
loads-dumps (online u) = refl
loads-dumps (offline u) = refl
loads-dumps (typing u name is_typing) =
    rw (take-append name is_typing, drop-append name is_typing) refl
loads-dumps (message m a) =
    let texts = put a.email (name_code a.full_name) in
    rw (take-append m.content texts, drop-append m.content texts)
      (rw (take-append a.email (name_code a.full_name), drop-append a.email (name_code a.full_name))
        (rw (role_of-role_code a.role, is_set-flag a.is_active, name_of-name_code a.full_name)
          refl))

abbrev pub local_wire : Wire
local_wire = record { dumps = dumps; loads = loads; loads-dumps = loads-dumps }
