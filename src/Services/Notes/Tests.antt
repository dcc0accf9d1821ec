-- ===== src/Services/Notes/Tests.antt =====
-- The theorems about notes and tags, at a workspace with a note.
use ai_secure_collaboration.Prelude.{
  some, ap, ◌≡◌, refl, none, [], ◌∷◌, Str, codes, filter, str_eq, strip, In, starts_with, ◌≢◌, inl,
  inr, is_empty,
}
use ai_secure_collaboration.External.Concrete.Codec.{codec_json}
use ai_secure_collaboration.External.Concrete.LocalRedis.{local_redis}
use ai_secure_collaboration.External.Concrete.LocalSql.{local_sql, insert_row, fresh_id, clashes}
use ai_secure_collaboration.Core.Exceptions.{integrity_error}
use ai_secure_collaboration.Core.Action.{ok, err}
use ai_secure_collaboration.Models.{WorkspaceRole, Note, Tag}
use ai_secure_collaboration.Repositories.{refresh, Session, create, commit, delete}
use ai_secure_collaboration.Services.Notes.{
  repeats_tag, has_tag_id, added_tags, delete_note, get_note, cascade_chunks, may_not_delete,
  verify_workspace_membership, get_or_create_by_name, cleaned_name, folded, drop_hash, get_by_name,
  found_or_create, delete_denied, get_paginated_notes, queue_embeddings,
}
use ai_secure_collaboration.Services.Notes.Access.{Deleted, delete_note-Deleted}
use ai_secure_collaboration.External.Concrete.Tally.{tally}
use ai_secure_collaboration.Services.Notes.Writing.{Written, create_note-Written}
use ai_secure_collaboration.Services.Notes.{create_note, resolve_tags}
use ai_secure_collaboration.Services.Notes.{update_note, retag}
use ai_secure_collaboration.Services.Notes.Updating.{Updated, update_note-Updated}
use ai_secure_collaboration.External.Concrete.LocalSql.{update_rows}
use ai_secure_collaboration.Repositories.{update}
use ai_secure_collaboration.Services.Notes.Pages.{Page, get_paginated_notes-Page}
use ai_secure_collaboration.Services.Notes.Tags.{
  get_or_create_by_name_found, get_or_create_by_name_clash,
}
use ai_secure_collaboration.Services.Sample.{note, database, session, invited_row}

note_run : get_note local_sql local_redis 5 1 session ≡ (ok note, session)
unfolding get_note verify_workspace_membership filter
note_run = refl

abbrev without_note : Session local_sql local_redis
without_note =
    let d = record database { notes = []; chunks = [] } in
    record { db = d; durable = d; cache = none }

delete_run : delete_note local_sql local_redis 5 1 session ≡ (ok tt, without_note)
unfolding delete_note may_not_delete cascade_chunks delete commit filter
delete_run = refl

delete_note-Deleted_example : Deleted local_sql local_redis 5 1 session without_note
delete_note-Deleted_example =
    delete_note-Deleted local_sql local_redis 5 1 session without_note delete_run

abbrev invited_member : Session local_sql local_redis
invited_member =
    let d = record database { members = record invited_row { role = WorkspaceRole.member } ∷ [] } in
    record { db = d; durable = d; cache = none }

denied_run :
    delete_note local_sql local_redis 5 2 invited_member ≡ (err delete_denied, invited_member)
unfolding delete_note may_not_delete filter
denied_run = refl

abbrev same_case : Str → Str
same_case s = s

get_paginated_notes-Page_example :
    let page = get_paginated_notes local_sql same_case str_eq 1 0 2 none none database in
    Page local_sql same_case str_eq 1 none none database 0 2 page.0 page.1
get_paginated_notes-Page_example =
    get_paginated_notes-Page local_sql same_case str_eq 1 none none database 0 2

abbrev tagged : Str → Session local_sql local_redis
tagged name = record session { db = record database { tags = record { id = 1; name = name } ∷ [] } }

tag_run :
    get_or_create_by_name same_case local_sql local_redis (codes "#ai") session
    ≡ (ok (record { id = 1; name = codes "ai" }), tagged (codes "ai"))
unfolding get_or_create_by_name cleaned_name folded drop_hash get_by_name found_or_create create
    insert_row fresh_id clashes strip starts_with codes filter
tag_run = refl

tag_stable :
    folded same_case (cleaned_name same_case (codes "#ai")) ≡ cleaned_name same_case (codes "#ai")
unfolding cleaned_name folded drop_hash strip starts_with codes
tag_stable = refl

get_or_create_by_name_found_example :
    ((codes "ai") ≡ cleaned_name same_case (codes "#ai"))
    × In (record { id = 1; name = codes "ai" }) ((tagged (codes "ai")).db.tags)
    × ((again : Tag) × (again.name ≡ cleaned_name same_case (codes "#ai"))
        × (get_or_create_by_name same_case local_sql local_redis (codes "#ai") (tagged (codes "ai"))
            ≡ (ok again, tagged (codes "ai"))))
get_or_create_by_name_found_example =
    get_or_create_by_name_found same_case local_sql local_redis (codes "#ai") tag_stable session
      (tagged (codes "ai")) (record { id = 1; name = codes "ai" }) tag_run

spaced_run :
    get_or_create_by_name same_case local_sql local_redis (codes "# ai") session
    ≡ (ok (record { id = 1; name = codes " ai" }), tagged (codes " ai"))
unfolding get_or_create_by_name cleaned_name folded drop_hash get_by_name found_or_create create
    insert_row fresh_id clashes strip starts_with codes filter
spaced_run = refl

spaced_never :
    (t : Tag)
    → In t ((tagged (codes " ai")).db.tags)
    → t.name ≢ folded same_case (cleaned_name same_case (codes "# ai"))
unfolding cleaned_name folded drop_hash strip starts_with codes
spaced_never t (inl e) h = cc (ap (λ x. x.name) e, h)
spaced_never t (inr i) h = absurd i

get_or_create_by_name_clash_example :
    get_or_create_by_name same_case local_sql local_redis (codes "# ai") (tagged (codes " ai"))
    ≡ (err integrity_error, tagged (codes " ai"))
get_or_create_by_name_clash_example =
    get_or_create_by_name_clash same_case local_sql local_redis (codes "# ai") session
      (tagged (codes " ai")) (record { id = 1; name = codes " ai" }) spaced_never spaced_run

abbrev written_note : Note
written_note = record {
  id = 6;
  title = codes "todo";
  content = none;
  workspace_id = 1;
  owner_id = 1;
  created_at = 9;
  tags = record { id = 1; name = codes "ai" } ∷ [];
}

abbrev written_session : Session local_sql local_redis
written_session =
    let d = record database {
      tags = record { id = 1; name = codes "ai" } ∷ [];
      notes = written_note ∷ note ∷ [];
    } in
    record { db = d; durable = d; cache = none }

written_run :
    create_note local_sql local_redis codec_json same_case tally 9
      (8 ∷ [])
      1
      (codes "todo")
      none
      1
      (codes "#ai" ∷ codes " " ∷ [])
      session
    ≡ (ok written_note, written_session)
unfolding create_note verify_workspace_membership resolve_tags get_or_create_by_name cleaned_name
    folded drop_hash get_by_name found_or_create create commit insert_row fresh_id clashes strip
    starts_with codes filter is_empty queue_embeddings repeats_tag has_tag_id
written_run = refl

create_note-Written_example :
    Written local_sql local_redis codec_json same_case tally 9
      (8 ∷ [])
      1
      (codes "todo")
      none
      1
      (codes "#ai" ∷ codes " " ∷ [])
      session
      written_session
      written_note
create_note-Written_example =
    create_note-Written local_sql local_redis codec_json same_case tally 9 (8 ∷ []) 1 (codes "todo")
      none 1 (codes "#ai" ∷ codes " " ∷ []) session written_session written_note written_run

abbrev updated_note : Note
updated_note = record note {
  title = codes "todo";
  tags = record { id = 1; name = codes "ai" } ∷ [];
}

abbrev updated_session : Session local_sql local_redis
updated_session =
    let d = record database {
      tags = record { id = 1; name = codes "ai" } ∷ [];
      notes = updated_note ∷ [];
    } in
    record { db = d; durable = d; cache = none }

updated_run :
    update_note local_sql local_redis codec_json same_case tally 9
      (8 ∷ [])
      5
      (some (codes "todo"))
      none
      (some (codes "#ai" ∷ []))
      1
      session
    ≡ (ok updated_note, updated_session)
unfolding update_note verify_workspace_membership resolve_tags get_or_create_by_name cleaned_name
    folded drop_hash get_by_name found_or_create create commit insert_row fresh_id clashes strip
    starts_with codes filter is_empty queue_embeddings retag update update_rows refresh repeats_tag
    has_tag_id added_tags
updated_run = refl

update_note-Updated_example :
    Updated local_sql local_redis codec_json same_case tally
      (8 ∷ [])
      5
      (some (codes "todo"))
      none
      (some (codes "#ai" ∷ []))
      1
      session
      updated_session
      updated_note
update_note-Updated_example =
    update_note-Updated local_sql local_redis codec_json same_case tally 9 (8 ∷ []) 5
      (some (codes "todo")) none (some (codes "#ai" ∷ [])) 1 session updated_session updated_note
      updated_run
