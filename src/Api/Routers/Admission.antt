-- ===== src/Api/Routers/Admission.antt =====
-- Who the endpoints with `Depends(get_current_user)` let in.
use ai_secure_collaboration.Prelude.{ℕ, ◌≡◌, ◌⊎◌, refl, inl, inr, true, In, Str}
use ai_secure_collaboration.Core.Exceptions.{Error}
use ai_secure_collaboration.Core.Action.{Action, Result, ok, err, ◌>>◌, pure}
use ai_secure_collaboration.Models.{User}
use ai_secure_collaboration.Services.Auth.{get_current_user, Claims, access_type}
use ai_secure_collaboration.Services.Auth.Tokens.{get_current_user_guarded}
use ai_secure_collaboration.Api.{Platform, Server, in_session, authenticated, S, some}
use ai_secure_collaboration.Api.Routers.{
  auth_endpoint, on_cache, logout, no_content, Request, endpoint, protected, serve, [], logout_user,
}

module _ (p : Platform) (now : ℕ) (task_id token : Str) (server : Server p) where
  value-cases : (r : Result User) → ((e : Error) × (r ≡ err e)) ⊎ ((u : User) × (r ≡ ok u))
  value-cases (ok u) = inr (u, refl)
  value-cases (err e) = inl (e, refl)

  -- A user whom the token names: stored, active, and the subject of the claims, of type "access", that the
  -- token decodes to before it expires.
  abbrev pub Named : User → Type 0
  Named u =
      In u (p.sql.rows server.db.users)
      × (u.is_active ≡ true)
      × ((claims : Claims) × (p.jwt.decode now token p.settings.jwt_secret_key ≡ some claims)
          × (claims.token_type ≡ access_type)
          × (p.numerals.number claims.sub ≡ some (some u.id)))

  -- A request is refused and leaves everything as it was, or is handled for a user whom the token names.
  abbrev pub Admitted : {A : Type 0} → Result A × Server p → (User → Result A × Server p) → Type 0
  Admitted answer handled =
      ((e : Error) × (answer ≡ (err e, server))) ⊎ ((u : User) × Named u × (answer ≡ handled u))

  -- Either no user is let in or one whom the token names.
  decision :
      let r = get_current_user p.sql p.jwt p.settings p.numerals now token server.db in
      ((e : Error) × (r ≡ err e)) ⊎ ((u : User) × Named u × (r ≡ ok u))
  decision =
      elim (value-cases (get_current_user p.sql p.jwt p.settings p.numerals now token server.db)) [
        | inl refused ↦ inl refused
        | inr (u, r) ↦ inr (
          u,
          get_current_user_guarded p.sql p.jwt p.settings p.numerals now token server.db u r,
          r,
        )
      ]

  -- Behind the dependency on the current user, a request is refused and leaves the database and Redis as they
  -- were, or is handled for a user who is stored and active and whose id is the subject of the access token's
  -- claims. This holds of every request to the workspaces, notes, chat and users routers, of the logout, and of
  -- every handler that runs on the session of the database behind `protected`.
  pub serve_admission :
      {A : Type 0} (request : Request) (handler : User → Action (S p) A)
      → Admitted
          (serve p now task_id token (inr request) server)
          (λ u. in_session p (endpoint p now task_id u request) server)
        × Admitted (serve p now task_id [] (inl (logout token)) server) (λ u.
          (do
            on_cache p now task_id (logout_user p.sql p.jwt p.settings p.numerals p.redis u.id)
            pure no_content)
            server)
        × Admitted
            (in_session p (protected p now task_id token handler) server)
            (λ u. in_session p (handler u) server)
  unfolding serve auth_endpoint protected authenticated in_session
  serve_admission request handler = elim decision [
    | inl (e, r) ↦ (inl (e, rw r refl), inl (e, rw r refl), inl (e, rw r refl))
    | inr (u, named, r) ↦
        (inr (u, named, rw r refl), inr (u, named, rw r refl), inr (u, named, rw r refl))
  ]
