-- ===== src/Services/Auth/Rotation.antt =====
-- The refresh sessions: what a refresh requires, and what it and a logout revoke.
use ai_secure_collaboration.Prelude.{
  ℕ, ◌≡◌, ◌≢◌, ◌<◌, ◌*◌, sym, ap, refl, ◌∙◌, inl, inr, true, false, arith, Str, str_eq, str_eq_iff,
  codes, ◌+◌, Option, some, none, Option-cases, Bool-cases,
}
use ai_secure_collaboration.External.Sql.{Sql}
use ai_secure_collaboration.External.Redis.{Keyspace, Redis, refresh_token, with_string}
use ai_secure_collaboration.Core.Exceptions.{Error, credential_exception}
use ai_secure_collaboration.Core.Action.{ok, err}
use ai_secure_collaboration.Models.{User, Database}
use ai_secure_collaboration.Repositories.{get, user_repo}
use ai_secure_collaboration.External.Numerals.{Numerals}
use ai_secure_collaboration.Services.Auth.{
  refresh_claims, Jwt, Settings, refresh_type, create_access_token, create_refresh_token,
  subject_of, user_by_number, login_user, logout_user, is_revoked, is_gone, refresh_session,
}

read_back :
    (k : Str) (v : Option Str) (s : Keyspace)
    → (with_string (refresh_token k) v s).strings (refresh_token k) ≡ v
read_back k v s = rw ((str_eq_iff k k).1 refl) refl

module _ (sql : Sql) (jwt : Jwt) (settings : Settings) (numerals : Numerals) (redis : Redis)
    (now : ℕ) (token : Str) (d : Database sql) where
  -- What a refresh that succeeds rests on and leaves behind.
  pub record Refreshed (s s' : redis.State) (pair : Str × Str) : Type 0 where
    pub subject : Str
    pub claims :
        subject_of refresh_type (jwt.decode now token settings.jwt_refresh_secret_key)
        ≡ some subject
    pub current : (redis.view s).strings (refresh_token subject) ≡ some token
    pub number : Option ℕ
    pub numbered : numerals.number subject ≡ some number
    pub user : User
    pub user_stored : user_by_number sql number d ≡ some user
    pub user_active : user.is_active ≡ true
    pub access : pair.0 ≡ create_access_token jwt settings now subject
    pub refresh : pair.1 ≡ create_refresh_token jwt settings now subject
    pub saved : redis.view s' ≡ with_string (refresh_token subject) (some pair.1) (redis.view s)

  -- A refresh that succeeds: the token is a refresh token of a subject, it is the one that is cached
  -- for the subject, and the subject is the number of a stored, active user. The two new tokens are for
  -- the same subject, and the new refresh token replaces the old one in the cache, where nothing else
  -- changes.
  pub refresh_session-Refreshed :
      (s s' : redis.State) (pair : Str × Str)
      → refresh_session sql jwt settings numerals redis now token d s ≡ (ok pair, s')
      → Refreshed s s' pair
  unfolding refresh_session is_revoked is_gone
  refresh_session-Refreshed s s' pair h =
      elim (Option-cases
        (subject_of refresh_type (jwt.decode now token settings.jwt_refresh_secret_key))) [
          | inl e ↦ cc (e, h)
          | inr (subject, e) ↦ elim (Option-cases (redis.get (refresh_token subject) s)) [
            | inl f ↦ cc (e, f, h)
            | inr (cached, f) ↦
                elim (Bool-cases (is_revoked sql jwt settings numerals redis (some cached) token)) [
                  | inl g ↦ cc (e, f, g, h)
                  | inr g ↦ elim (Option-cases (numerals.number subject)) [
                    | inl k ↦ cc (e, f, g, k, h)
                    | inr (number, k) ↦ elim (Option-cases (user_by_number sql number d)) [
                      | inl u ↦ cc (e, f, g, k, u, h)
                      | inr (user, u) ↦ elim (Bool-cases user.is_active) [
                        | inr a ↦ cc (e, f, g, k, u, a, h)
                        | inl a ↦
                            let new = create_refresh_token jwt settings now subject in
                            let run : refresh_session sql jwt settings numerals redis now token d s
                                ≡ (
                                  ok (create_access_token jwt settings now subject, new),
                                  redis.set (refresh_token subject) new s,
                                ) =
                              rw e (rw f (rw g (rw k (rw u (rw a refl))))) in
                            let both = sym run ∙ h in
                            let given : ◌≡◌ {A = Str × Str}
                                (create_access_token jwt settings now subject, new) pair =
                              cc both in
                            let there : s' ≡ redis.set (refresh_token subject) new s =
                              sym (ap (λ r. r.1) both) in
                            let same : cached ≡ token =
                              (str_eq_iff cached token).0 (ground (arith, g)) in
                            record {
                              subject = subject;
                              claims = e;
                              current =
                                  sym (redis.get_view (refresh_token subject) s) ∙ f ∙ ap some same;
                              number = number;
                              numbered = k;
                              user = user;
                              user_stored = u;
                              user_active = a;
                              access = sym (ap (λ p. p.0) given);
                              refresh = sym (ap (λ p. p.1) given);
                              saved =
                                  rw there
                                    (rw (← given) (redis.set_view (refresh_token subject) new s));
                            }
                      ]
                    ]
                  ]
                ]
          ]
        ]

  -- A refresh that is refused changes nothing.
  pub refused_refresh :
      (s s' : redis.State) (e : Error)
      → refresh_session sql jwt settings numerals redis now token d s ≡ (err e, s')
      → s' ≡ s
  unfolding refresh_session is_revoked is_gone
  refused_refresh s s' e h = ground arith

module _ (sql : Sql) (jwt : Jwt) (settings : Settings) (numerals : Numerals) (redis : Redis) where
  -- A token has one subject, whenever it is read.
  subject_same :
      (now later : ℕ) (token a b : Str)
      → subject_of refresh_type (jwt.decode now token settings.jwt_refresh_secret_key) ≡ some a
      → subject_of refresh_type (jwt.decode later token settings.jwt_refresh_secret_key) ≡ some b
      → a ≡ b
  unfolding subject_of
  subject_same now later token a b e f =
      elim (Option-cases (jwt.decode now token settings.jwt_refresh_secret_key)) [
        | inl n ↦ cc (n, e)
        | inr (c, g) ↦
            elim (Option-cases (jwt.decode later token settings.jwt_refresh_secret_key)) [
              | inl n ↦ cc (n, f)
              | inr (c', k) ↦ cc (
                jwt.decode_same token settings.jwt_refresh_secret_key now later c c' g k,
                e,
                f,
                g,
                k,
              )
            ]
      ]

  -- A token that is not the one that is cached for its subject is refused, whatever the database holds.
  stale_refused :
      (now : ℕ) (token subject : Str) (d : Database sql) (s : redis.State)
      → subject_of refresh_type (jwt.decode now token settings.jwt_refresh_secret_key)
        ≡ some subject
      → (redis.view s).strings (refresh_token subject) ≢ some token
      → refresh_session sql jwt settings numerals redis now token d s
        ≡ (err (credential_exception (codes "Refresh token expired or revoked")), s)
  unfolding refresh_session is_revoked
  stale_refused now token subject d s e stale =
      elim (Option-cases (redis.get (refresh_token subject) s)) [
        | inl f ↦ rw e (rw f refl)
        | inr (cached, f) ↦ elim (Bool-cases (str_eq cached token)) [
          | inl g ↦ absurd (
              stale (
                sym (redis.get_view (refresh_token subject) s)
                ∙ f
                ∙ ap some ((str_eq_iff cached token).0 g)))
          | inr g ↦
              let revoked : is_revoked sql jwt settings numerals redis (some cached) token ≡ true =
                ground (arith, g) in
              rw e (rw f (rw revoked refl))
        ]
      ]

  -- After a refresh whose new token differs from the old one, the old token is refused at any time and
  -- whatever the database holds, and the refusal changes nothing.
  pub rotated_token_refused :
      (now later : ℕ) (token : Str) (d d' : Database sql) (s s' : redis.State) (pair : Str × Str)
      → refresh_session sql jwt settings numerals redis now token d s ≡ (ok pair, s')
      → pair.1 ≢ token
      → (e : Error) × (refresh_session sql jwt settings numerals redis later token d' s'
          ≡ (err e, s'))
  unfolding refresh_session
  rotated_token_refused now later token d d' s s' pair h fresh =
      let r = refresh_session-Refreshed sql jwt settings numerals redis now token d s s' pair h in
      elim (Option-cases
        (subject_of refresh_type (jwt.decode later token settings.jwt_refresh_secret_key))) [
          | inl e ↦ (credential_exception (codes "Invalid refresh token"), rw e refl)
          | inr (subject, e) ↦
              let same : r.subject ≡ subject =
                subject_same now later token r.subject subject r.claims e in
              let kept : (redis.view s').strings (refresh_token subject) ≡ some pair.1 =
                ap (λ v. v.strings (refresh_token subject)) r.saved
                ∙ ap
                    (λ k.
                      (with_string (refresh_token k) (some pair.1) (redis.view s)).strings
                        (refresh_token subject))
                    same
                ∙ read_back subject (some pair.1) (redis.view s) in
              (
                credential_exception (codes "Refresh token expired or revoked"),
                stale_refused later token subject d' s' e (λ old. fresh (cc (kept, old))),
              )
        ]

  -- After a logout of a user, a token that decodes as a refresh token of that user is refused as revoked,
  -- and the refusal changes nothing.
  pub logout_revokes :
      (now user_id : ℕ) (token : Str) (d : Database sql) (s s' : redis.State)
      → subject_of refresh_type (jwt.decode now token settings.jwt_refresh_secret_key)
        ≡ some (numerals.str user_id)
      → logout_user sql jwt settings numerals redis user_id s ≡ (ok tt, s')
      → refresh_session sql jwt settings numerals redis now token d s'
        ≡ (err (credential_exception (codes "Refresh token expired or revoked")), s')
  unfolding logout_user
  logout_revokes now user_id token d s s' e h =
      stale_refused now token (numerals.str user_id) d s' e (λ old. cc (
        ap (λ v. v.strings (refresh_token (numerals.str user_id)))
            (ap redis.view (sym (ap (λ r. r.1) h))
              ∙ redis.delete_view (refresh_token (numerals.str user_id)) s),
        read_back (numerals.str user_id) none (redis.view s),
        old,
      ))

  -- A refresh with the token of a login, before that token expires and while the user is stored and
  -- active, gives two tokens of the user made at the time of the refresh.
  pub refresh-login :
      (now later : ℕ) (user : User) (d : Database sql) (s s' : redis.State) (pair : Str × Str)
      → later < now + settings.refresh_token_expire_days * 86400
      → get sql (user_repo sql) user.id d ≡ some user
      → user.is_active ≡ true
      → login_user sql jwt settings numerals redis now user s ≡ (ok pair, s')
      → (s'' : redis.State) × (refresh_session sql jwt settings numerals redis later pair.1 d s' ≡ (
        ok (
          create_access_token jwt settings later (numerals.str user.id),
          create_refresh_token jwt settings later (numerals.str user.id),
        ),
        s'',
      ))
  unfolding refresh_session login_user is_revoked is_gone user_by_number create_refresh_token
      subject_of refresh_claims str_eq codes
  refresh-login now later user d s s' pair time stored active h =
      let subject = numerals.str user.id in
      let token =
        jwt.encode (refresh_claims jwt settings now subject) settings.jwt_refresh_secret_key in
      let after = redis.set (refresh_token subject) token s in
      let ended : s' ≡ after = sym (ap (λ r. r.1) h) in
      let given : ◌≡◌ {A = Str × Str} (create_access_token jwt settings now subject, token) pair =
        cc h in
      let same : pair.1 ≡ token = sym (ap (λ p. p.1) given) in
      let decoded =
        jwt.decode-encode (refresh_claims jwt settings now subject) settings.jwt_refresh_secret_key
          later time in
      let kept : redis.get (refresh_token subject) after ≡ some token =
        redis.get_view (refresh_token subject) after
        ∙ ap (λ v. v.strings (refresh_token subject))
            (redis.set_view (refresh_token subject) token s)
        ∙ read_back subject (some token) (redis.view s) in
      let valid : is_revoked sql jwt settings numerals redis (some token) token ≡ false =
        rw
          (jwt.encode-nonempty (refresh_claims jwt settings now subject)
            settings.jwt_refresh_secret_key)
          (rw ((str_eq_iff token token).1 refl) refl) in
      let subject_found : subject_of refresh_type (some (refresh_claims jwt settings now subject))
          ≡ some subject =
        rw (numerals.str-nonempty user.id) refl in
      (
        redis.set (refresh_token subject) (create_refresh_token jwt settings later subject) after,
        rw same (
            rw ended (
              rw decoded (
                rw subject_found (
                  rw kept
                    (rw valid (rw (numerals.number-str user.id) (rw stored (rw active refl)))))))),
      )

  -- A refresh in the second of the login, while refresh tokens last at all and the user is stored and
  -- active, succeeds and gives the same refresh token back: nothing is revoked by it.
  pub same_second_refresh :
      (now : ℕ) (user : User) (d : Database sql) (s s' : redis.State) (pair : Str × Str)
      → 0 < settings.refresh_token_expire_days
      → get sql (user_repo sql) user.id d ≡ some user
      → user.is_active ≡ true
      → login_user sql jwt settings numerals redis now user s ≡ (ok pair, s')
      → (s'' : redis.State) × (access : Str) × (refresh_session sql jwt settings numerals redis now
            pair.1 d s'
          ≡ (ok (access, pair.1), s''))
  unfolding login_user
  same_second_refresh now user d s s' pair lasting stored active h =
      let new = create_refresh_token jwt settings now (numerals.str user.id) in
      let access = create_access_token jwt settings now (numerals.str user.id) in
      let given : ◌≡◌ {A = Str × Str} (access, new) pair = cc h in
      let same : new ≡ pair.1 = ap (λ p. p.1) given in
      let (after, run) =
        refresh-login now now user d s s' pair (omega (arith, lasting)) stored active h in
      (after, access, run ∙ ap (λ t. (ok (access, t), after)) same)
