-- ===== src/Schemas.antt =====
-- The request bodies of backend/app/schemas that carry rules, with the rules of their fields.
use ai_secure_collaboration.Prelude.{
  ℕ, Bool, true, ◌&&◌, Option, none, some, List, Str, length, leb,
}
use ai_secure_collaboration.Models.{WorkspaceRole}

-- `min_length` and `max_length`
unfoldable pub within : ℕ → ℕ → Str → Bool
within least most s = leb least (length s) && leb (length s) most

-- The same on a field that may be `None`.
unfoldable pub within_if_given : ℕ → ℕ → Option Str → Bool
unfolding within
within_if_given least most none = true
within_if_given least most (some s) = within least most s

-- schemas/user.py; `is_email` is the test of `EmailStr`, and the field holds the address that it gives.
pub record UserCreate : Type 0 where
  pub email : Str
  pub full_name : Option Str
  pub password : Str

unfoldable pub is_user_create : (Str → Bool) → UserCreate → Bool
unfolding within_if_given within
is_user_create is_email u =
    is_email u.email && within_if_given 0 255 u.full_name && within 8 100 u.password

-- schemas/workspace.py
pub record WorkspaceCreate : Type 0 where
  pub name : Str
  pub description : Option Str

unfoldable pub is_workspace_create : WorkspaceCreate → Bool
unfolding within_if_given within
is_workspace_create w = within 1 255 w.name && within_if_given 0 1000 w.description

pub record WorkspaceMemberAdd : Type 0 where
  pub email : Str
  pub role : WorkspaceRole

unfoldable pub is_member_add : (Str → Bool) → WorkspaceMemberAdd → Bool
is_member_add is_email m = is_email m.email

-- schemas/note.py
pub record NoteCreate : Type 0 where
  pub title : Str
  pub content : Option Str
  pub tags : List Str

unfoldable pub is_note_create : NoteCreate → Bool
unfolding within
is_note_create n = within 1 255 n.title

pub record NoteUpdate : Type 0 where
  pub title : Option Str
  pub content : Option Str
  pub tags : Option (List Str)

unfoldable pub is_note_update : NoteUpdate → Bool
unfolding within_if_given
is_note_update n = within_if_given 1 255 n.title

-- schemas/chat.py
pub record ChatRoomCreate : Type 0 where
  pub name : Str

unfoldable pub is_chat_room_create : ChatRoomCreate → Bool
unfolding within
is_chat_room_create r = within 1 255 r.name

-- schemas/pagination.py
pub record PageParams : Type 0 where
  pub limit : ℕ
  pub offset : ℕ

unfoldable pub is_page_params : PageParams → Bool
is_page_params p = leb 1 p.limit && leb p.limit 100
