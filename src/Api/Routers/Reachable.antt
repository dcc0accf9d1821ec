-- ===== src/Api/Routers/Reachable.antt =====
-- What the whole application can reach: its requests, the messages that its sockets store, and the
-- embeddings of its worker.
use ai_secure_collaboration.Prelude.{
  ℕ, ◌≡◌, ◌⊎◌, refl, ap, inl, inr, true, Option, [], Str, Option-cases, Bool-cases,
}
use ai_secure_collaboration.Core.Action.{
  pure, ◌>>=◌, ◌>>◌, Action, Result, ok, err, continue, Result-cases,
}
use ai_secure_collaboration.Models.{
  User, UserRole, ChatMessage, Database, user_schema, message_schema,
}
use ai_secure_collaboration.Repositories
use ai_secure_collaboration.Repositories.{get, create, commit, note_repo, get_by_email}
use ai_secure_collaboration.Schemas.{is_user_create}
use ai_secure_collaboration.Services.Users.{register_user, welcome}
use ai_secure_collaboration.Services.Auth.{
  authenticate_user, get_current_user, login_user, logout_user, refresh_session,
}
use ai_secure_collaboration.Services.Chat.{persist_message}
use ai_secure_collaboration.Worker.Embeddings.{generate_note_embeddings, embed_found}
use ai_secure_collaboration.Worker.Embeddings.Indexing.{
  generate_note_embeddings-Indexed, generate_note_embeddings_rollback,
}
use ai_secure_collaboration.Api.{no_content, Platform, Server, Response, authenticated, in_session}
use ai_secure_collaboration.Api.Routers.{
  Request, protected, AuthRequest, register, login, logout, refresh, auth_endpoint, on_cache,
  token_pair, serve,
}
use ai_secure_collaboration.Api.Routers.Rosters.{SameRosters, opened}
use ai_secure_collaboration.Api.Routers.Ownership.{Owned, SameRosters-Owned, admitted-Owned}

module _ (p : Platform) where
  module _ (d : Database p.sql) (cache : p.redis.State) where
    register-SameRosters :
        (now : ℕ) (task_id email password : Str) (full_name : Option Str)
        → SameRosters p d
            (register_user p.sql p.redis p.json p.hash now task_id email password full_name
              (opened p d cache)).1.durable
    unfolding register_user create commit Repositories.refresh welcome
    register-SameRosters now task_id email password full_name =
        let make : ℕ → User = λ id. record {
          id = id;
          email = email;
          hashed_password = p.hash password;
          full_name = full_name;
          role = UserRole.member;
          is_active = true;
        } in
        elim (Option-cases (get_by_email p.sql email d)) [
          | inr (old, e) ↦ rw e (refl, refl)
          | inl e ↦ elim (Option-cases (p.sql.insert user_schema make d.users)) [
            | inl clash ↦ rw e (rw clash (refl, refl))
            | inr ((row, t), k) ↦ elim (Bool-cases (p.sql.reloads user_schema row.id t)) [
              | inl there ↦ rw e (rw k (rw there (refl, refl)))
              | inr gone ↦ rw e (rw k (rw gone (refl, refl)))
            ]
          ]
        ]

    persist-SameRosters :
        (now room_id user_id : ℕ) (content : Str)
        → SameRosters p d
            (persist_message p.sql p.redis now room_id user_id content (opened p d cache)).1.durable
    unfolding persist_message create commit
    persist-SameRosters now room_id user_id content =
        let make : ℕ → ChatMessage = λ id. record {
          id = id;
          room_id = room_id;
          user_id = user_id;
          content = content;
          created_at = now;
        } in
        elim (Option-cases (p.sql.insert message_schema make d.messages)) [
          | inl clash ↦ rw clash (refl, refl)
          | inr ((row, t), k) ↦ rw k (refl, refl)
        ]

    embeddings-SameRosters :
        (embed : Str → Str) (note_id : ℕ)
        → SameRosters p d
            (generate_note_embeddings p.sql p.redis embed note_id (opened p d cache)).1.durable
    embeddings-SameRosters embed note_id =
        elim (Option-cases (get p.sql (note_repo p.sql) note_id d)) [
          | inl e ↦ unfold generate_note_embeddings in unfold embed_found in rw e (refl, refl)
          | inr (note, e) ↦
              elim (Result-cases
                (generate_note_embeddings p.sql p.redis embed note_id (opened p d cache))) [
                  | inl (x, s', r) ↦
                      let still =
                        (generate_note_embeddings_rollback p.sql p.redis embed note_id
                          (opened p d cache) s' x r).0 in
                      rw r (ap (λ q. q.workspaces) still, ap (λ q. q.members) still)
                  | inr (made, s', r) ↦
                      let indexed =
                        generate_note_embeddings-Indexed p.sql p.redis embed note_id note
                          (opened p d cache) s' made e r in
                      rw r
                        (ap (λ q. q.workspaces) indexed.others, ap (λ q. q.members) indexed.others)
                ]
        ]

  after_result :
      {A B : Type 0} (r : Result A) (f : A → Action (Server p) B) (server : Server p)
      → ((a : A) → SameRosters p server.db (f a server).1.db)
      → SameRosters p server.db (continue r f server).1.db
  after_result (ok a) f server h = h a
  after_result (err e) f server h = (refl, refl)

  auth-SameRosters :
      (now : ℕ) (task_id : Str) (request : AuthRequest) (server : Server p)
      → SameRosters p server.db (auth_endpoint p now task_id request server).1.db
  unfolding auth_endpoint in_session on_cache authenticated login_user logout_user
  auth-SameRosters now task_id (register u) server =
      elim (Bool-cases (is_user_create p.is_email u)) [
        | inr broken ↦ rw broken (refl, refl)
        | inl valid ↦
            let kept =
              register-SameRosters server.db server.cache now task_id u.email u.password
                u.full_name in
            elim (Result-cases (
              register_user p.sql p.redis p.json p.hash now task_id u.email u.password u.full_name
                (opened p server.db server.cache))) [
                  | inl (e, s', r) ↦ rw valid (rw r (rw r at kept))
                  | inr (a, s', r) ↦ rw valid (rw r (rw r at kept))
                ]
      ]
  auth-SameRosters now task_id (login username password) server =
      let found = authenticate_user p.sql p.verify username password server.db in
      let pair : User → Action (Server p) Response = λ user. (do
        pair ←
            on_cache p now task_id (login_user p.sql p.jwt p.settings p.numerals p.redis now user)
        pure (token_pair p now task_id pair)) in
      after_result found pair server (λ user. (refl, refl))
  auth-SameRosters now task_id (logout token) server =
      let found = get_current_user p.sql p.jwt p.settings p.numerals now token server.db in
      let revoke : User → Action (Server p) Response = λ user. (do
        on_cache p now task_id (logout_user p.sql p.jwt p.settings p.numerals p.redis user.id)
        pure no_content) in
      after_result found revoke server (λ user. (refl, refl))
  auth-SameRosters now task_id (refresh token) server =
      elim (Result-cases (
        refresh_session p.sql p.jwt p.settings p.numerals p.redis now token server.db
          server.cache)) [
            | inl (e, c, r) ↦ rw r (refl, refl)
            | inr (pair, c, r) ↦ rw r (refl, refl)
          ]

  serve-Owned :
      (now : ℕ) (task_id token : Str) (request : AuthRequest ⊎ Request) (server : Server p)
      → Owned p server.db
      → Owned p (serve p now task_id token request server).1.db
  unfolding serve protected in_session authenticated
  serve-Owned now task_id token (inl request) server owned =
      SameRosters-Owned p server.db (auth_endpoint p now task_id request server).1.db
        (auth-SameRosters now task_id request server) owned
  serve-Owned now task_id token (inr request) server owned =
      admitted-Owned p server.db server.cache owned now task_id request
        (get_current_user p.sql p.jwt p.settings p.numerals now token server.db)

  -- What the application reaches from tables without a workspace, through requests, messages of sockets, and
  -- embeddings.
  pub data Reachable : Server p → Type 0 where
    started : (server : Server p) → p.sql.rows server.db.workspaces ≡ [] → Reachable server
    requested :
        (now : ℕ) (task_id token : Str) (request : AuthRequest ⊎ Request) (server : Server p)
        → Reachable server
        → Reachable (serve p now task_id token request server).1
    chatted :
        (now room_id user_id : ℕ) (content : Str) (server : Server p)
        → Reachable server
        → Reachable
            (in_session p (persist_message p.sql p.redis now room_id user_id content) server).1
    embedded :
        (embed : Str → Str) (note_id : ℕ) (server : Server p)
        → Reachable server
        → Reachable (in_session p (generate_note_embeddings p.sql p.redis embed note_id) server).1

  -- In every state that the application reaches from tables without a workspace, whatever requests it gets, with or without
  -- valid tokens, and whatever its sockets and its worker store in between, every stored workspace has a stored
  -- membership of its owner with the role of an owner.
  pub Reachable-Owned : (server : Server p) → Reachable server → Owned p server.db
  unfolding in_session
  Reachable-Owned _ (started server none_yet) = λ w i. absurd (rw none_yet at i)
  Reachable-Owned _ (requested now task_id token request server before) =
      serve-Owned now task_id token request server (Reachable-Owned server before)
  Reachable-Owned _ (chatted now room_id user_id content server before) =
      SameRosters-Owned p server.db
        (persist_message p.sql p.redis now room_id user_id content
          (opened p server.db server.cache)).1.durable
        (persist-SameRosters server.db server.cache now room_id user_id content)
        (Reachable-Owned server before)
  Reachable-Owned _ (embedded embed note_id server before) =
      SameRosters-Owned p server.db
        (generate_note_embeddings p.sql p.redis embed note_id
          (opened p server.db server.cache)).1.durable
        (embeddings-SameRosters server.db server.cache embed note_id)
        (Reachable-Owned server before)
