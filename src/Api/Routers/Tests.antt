-- ===== src/Api/Routers/Tests.antt =====
-- Requests to the application, from empty tables and with a member's token.
use ai_secure_collaboration.Prelude.{refl, inr, true, none, [], ◌∷◌, str_eq}
use ai_secure_collaboration.External.Concrete.Codec.{codec_json}
use ai_secure_collaboration.External.Concrete.LocalRedis.{local_redis, empty_redis}
use ai_secure_collaboration.External.Concrete.LocalSql.{local_sql}
use ai_secure_collaboration.External.Concrete.Tally.{local_numerals, natural_floats}
use ai_secure_collaboration.Core.Exceptions.{not_found}
use ai_secure_collaboration.Models.{User}
use ai_secure_collaboration.Services.Auth.LocalJwt.{local_jwt}
use ai_secure_collaboration.Services.Endpoints.Tests.{keys, chat_database, bearer}
use ai_secure_collaboration.Services.Chat.{persist_message}
use ai_secure_collaboration.Worker.Embeddings.{generate_note_embeddings}
use ai_secure_collaboration.Api.{Platform, Server, in_session, Action, S, List, no_content}
use ai_secure_collaboration.Api.Routers.{
  Request, on_workspaces, create_workspace, endpoint, serve, inl, logout, on_cache, logout_user,
  pure, protected,
}
use ai_secure_collaboration.Core.Action.{◌>>◌}
use ai_secure_collaboration.Services.Endpoints.Search.{SearchMatch, semantic_search}
use ai_secure_collaboration.External.Concrete.NearestFirst.{length_vectors}
use ai_secure_collaboration.Api.Routers.Admission.{Admitted, serve_admission}
use ai_secure_collaboration.Api.Routers.Ownership.{Owned}
use ai_secure_collaboration.Api.Routers.Reachable.{
  Reachable, started, requested, chatted, embedded, Reachable-Owned,
}

abbrev platform : Platform
platform = record {
  sql = local_sql;
  redis = local_redis;
  json = codec_json;
  jwt = local_jwt;
  settings = keys;
  numerals = local_numerals;
  hash = λ password. password;
  verify = str_eq;
  lower = λ s. s;
  like = str_eq;
  is_email = λ s. true;
  invalid = not_found [];
}

abbrev new_team : Request
new_team = on_workspaces (create_workspace (record { name = 84 ∷ []; description = none }))

-- A server with the member whose token `bearer` is.
abbrev member_server : Server platform
member_server = record { db = chat_database; cache = empty_redis }

-- The search's endpoint, as a handler behind the dependency.
abbrev searcher : User → Action (S platform) (List (SearchMatch natural_floats))
searcher u =
    semantic_search natural_floats length_vectors local_sql local_redis (λ s. s) 7 (1 ∷ []) 10 u.id

serve_admission_example :
    Admitted platform 20 [] bearer member_server
      (serve platform 20 [] bearer (inr new_team) member_server)
      (λ u. in_session platform (endpoint platform 20 [] u new_team) member_server)
    × Admitted platform 20 [] bearer member_server
        (serve platform 20 [] [] (inl (logout bearer)) member_server)
        (λ u.
          (do
            on_cache platform 20 []
                (logout_user local_sql local_jwt keys local_numerals local_redis u.id)
            pure no_content)
            member_server)
    × Admitted platform 20 [] bearer member_server
        (in_session platform (protected platform 20 [] bearer searcher) member_server)
        (λ u. in_session platform (searcher u) member_server)
serve_admission_example = serve_admission platform 20 [] bearer member_server new_team searcher

abbrev team_server : Server platform
team_server = (serve platform 20 (8 ∷ []) bearer (inr new_team) member_server).1

-- The member creates a workspace, a message is stored in a room, and a note is embedded.
abbrev busy : Server platform
busy =
    (in_session platform (generate_note_embeddings local_sql local_redis (λ s. s) 5)
      (in_session platform (persist_message local_sql local_redis 21 4 3 (65 ∷ []))
        team_server).1).1

reached : Reachable platform busy
reached =
    embedded (λ s. s) 5 _
      (chatted 21 4 3 (65 ∷ []) team_server
        (requested 20 (8 ∷ []) bearer (inr new_team) member_server (started member_server refl)))

Reachable-Owned_example : Owned platform busy.db
Reachable-Owned_example = Reachable-Owned platform busy reached
