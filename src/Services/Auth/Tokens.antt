-- ===== src/Services/Auth/Tokens.antt =====
-- Whom a bearer token lets in.
use ai_secure_collaboration.Prelude.{
  [], ◌∷◌, ℕ, ◌≡◌, sym, ap, refl, ◌∙◌, inl, inr, true, In, Str, str_eq, str_eq_iff, List, some,
  none, Option-cases, Bool-cases, head?-filter, ==_iff, is_empty, ◌↔◌,
}
use ai_secure_collaboration.External.Sql.{Sql}
use ai_secure_collaboration.Core.Action.{ok}
use ai_secure_collaboration.Models.{User, UserRole, Database}
use ai_secure_collaboration.Repositories.{get, user_repo}
use ai_secure_collaboration.External.Numerals.{Numerals}
use ai_secure_collaboration.Services.Auth.{
  Jwt, Settings, Claims, access_type, subject_of, user_by_number, get_current_user, user_of_subject,
  user_of_number, active_user, check_role, role_in, role_eq,
}

module _ (sql : Sql) where
  open sql use {rows}

  module _ (jwt : Jwt) (settings : Settings) (numerals : Numerals) where
    -- Whoever is let in is stored and active, and the token decodes, with the secret of the access tokens
    -- and before it expires, to claims of type "access" whose subject is the number of the user's id.
    pub get_current_user_guarded :
        (now : ℕ) (token : Str) (d : Database sql) (user : User)
        → get_current_user sql jwt settings numerals now token d ≡ ok user
        → In user (rows d.users)
          × (user.is_active ≡ true)
          × ((claims : Claims) × (jwt.decode now token settings.jwt_secret_key ≡ some claims)
              × (claims.token_type ≡ access_type)
              × (numerals.number claims.sub ≡ some (some user.id)))
    unfolding get_current_user user_of_subject user_of_number user_by_number active_user subject_of
    get_current_user_guarded now token d user h =
        elim (Option-cases (jwt.decode now token settings.jwt_secret_key)) [
          | inl e ↦ cc (e, h)
          | inr (claims, e) ↦ elim (Bool-cases (is_empty claims.sub)) [
            | inl f ↦ cc (e, f, h)
            | inr f ↦ elim (Bool-cases (str_eq claims.token_type access_type)) [
              | inr g ↦ cc (e, f, g, h)
              | inl g ↦ elim (Option-cases (numerals.number claims.sub)) [
                | inl k ↦ cc (e, f, g, k, h)
                | inr (none, k) ↦ cc (e, f, g, k, h)
                | inr (some id, k) ↦ elim (Option-cases (get sql (user_repo sql) id d)) [
                  | inl u ↦ cc (e, f, g, k, u, h)
                  | inr (found, u) ↦ elim (Bool-cases found.is_active) [
                    | inr a ↦ cc (e, f, g, k, u, a, h)
                    | inl a ↦
                        let run : get_current_user sql jwt settings numerals now token d
                            ≡ ok found =
                          rw e (rw f (rw g (rw k (rw u (rw a refl))))) in
                        let same : found ≡ user = cc (sym run ∙ h) in
                        let (stored, key) = head?-filter _ found (rows d.users) u in
                        let number : found.id ≡ id = (==_iff found.id id).0 key in
                        (
                          rw (← same) stored,
                          rw (← same) a,
                          (
                            claims,
                            e,
                            (str_eq_iff claims.token_type access_type).0 g,
                            k ∙ ap (λ i. some (some i)) (sym number ∙ ap (λ x. x.id) same),
                          ),
                        )
                  ]
                ]
              ]
            ]
          ]
        ]

role_in_iff :
    (role : UserRole) (roles : List UserRole) → (role_in role roles ≡ true) ↔ In role roles
unfolding role_in role_eq
role_in_iff role [] = (λ h. cc h, λ i. absurd i)
role_in_iff UserRole.admin (UserRole.admin ∷ roles) = (λ h. inl refl, λ i. refl)
role_in_iff UserRole.member (UserRole.member ∷ roles) = (λ h. inl refl, λ i. refl)
role_in_iff UserRole.admin (UserRole.member ∷ roles) =
    let (to, of) = role_in_iff UserRole.admin roles in
    (λ h. inr (to h), λ i. elim i [ inl e ↦ cc e | inr j ↦ of j ])
role_in_iff UserRole.member (UserRole.admin ∷ roles) =
    let (to, of) = role_in_iff UserRole.member roles in
    (λ h. inr (to h), λ i. elim i [ inl e ↦ cc e | inr j ↦ of j ])

-- A role check lets a user through exactly where the user's role is among the allowed ones.
pub check_role_iff :
    (allowed_roles : List UserRole) (user : User)
    → (check_role allowed_roles user ≡ ok user) ↔ In user.role allowed_roles
unfolding check_role role_in role_eq
check_role_iff allowed_roles user =
    let (to, of) = role_in_iff user.role allowed_roles in
    elim (Bool-cases (role_in user.role allowed_roles)) [
      | inl e ↦ (λ h. to e, λ i. rw e refl)
      | inr e ↦ (λ h. cc h, λ i. cc (e, of i))
    ]
