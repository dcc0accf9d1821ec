-- ===== src/Services/Endpoints/Handshake.antt =====
-- Whose socket is accepted.
use ai_secure_collaboration.Prelude.{
  ℕ, ◌≡◌, sym, ap, refl, ◌∙◌, inl, inr, true, arith, In, some, none, Str, is_empty, Option-cases,
  Bool-cases, head?-filter, ==_iff,
}
use ai_secure_collaboration.External.Sql.{Sql}
use ai_secure_collaboration.Models.{User, WorkspaceMember, Database}
use ai_secure_collaboration.Repositories.{get, user_repo, get_by_workspace_and_user}
use ai_secure_collaboration.External.Numerals.{Numerals}
use ai_secure_collaboration.Services.Auth.{Jwt, Settings, subject_of, access_type}
use ai_secure_collaboration.Services.Endpoints.{
  handshake, subject_gate, number_gate, user_gate, member_gate,
}

module _ (sql : Sql) (jwt : Jwt) (settings : Settings) (numerals : Numerals) where
  open sql use {rows}

  -- A socket that is accepted: the token names, as an access token, the number of a stored and active
  -- user, who has a membership of the workspace.
  pub handshake_guarded :
      (now : ℕ) (token : Str) (workspace_id room_id : ℕ) (d : Database sql) (user : User)
      → handshake sql jwt settings numerals now (some token) workspace_id room_id d ≡ some user
      → In user (rows d.users)
        × (user.is_active ≡ true)
        × ((subject : Str) × (subject_of access_type (jwt.decode now token settings.jwt_secret_key)
              ≡ some subject)
            × (numerals.number subject ≡ some (some user.id)))
        × ((mine : WorkspaceMember) × In mine (rows d.members)
            × (mine.workspace_id ≡ workspace_id)
            × (mine.user_id ≡ user.id))
  unfolding handshake subject_gate number_gate user_gate member_gate
  handshake_guarded now token workspace_id room_id d user h = elim (Bool-cases (is_empty token)) [
    | inl t ↦ cc (t, h)
    | inr t ↦
        elim (Option-cases
          (subject_of access_type (jwt.decode now token settings.jwt_secret_key))) [
            | inl e ↦ cc (t, e, h)
            | inr (subject, e) ↦ elim (Option-cases (numerals.number subject)) [
              | inl k ↦ cc (t, e, k, h)
              | inr (none, k) ↦ cc (t, e, k, h)
              | inr (some id, k) ↦ elim (Option-cases (get sql (user_repo sql) id d)) [
                | inl u ↦ cc (t, e, k, u, h)
                | inr (found, u) ↦ elim (Bool-cases found.is_active) [
                  | inr a ↦ cc (t, e, k, u, a, h)
                  | inl a ↦ elim (Option-cases (get_by_workspace_and_user sql workspace_id id d)) [
                    | inl f ↦ cc (t, e, k, u, a, f, h)
                    | inr (mine, f) ↦
                        let run : handshake sql jwt settings numerals now (some token) workspace_id
                              room_id d
                            ≡ some found =
                          rw t (rw e (rw k (rw u (rw a (rw f refl))))) in
                        let same : found ≡ user = cc (sym run ∙ h) in
                        let (stored, key) = head?-filter _ found (rows d.users) u in
                        let number : found.id ≡ id = (==_iff found.id id).0 key in
                        let own : id ≡ user.id = sym number ∙ ap (λ x. x.id) same in
                        let (joined, keys) = head?-filter _ mine (rows d.members) f in
                        let there : mine.user_id ≡ id = ground (arith, keys) in
                        (
                          rw (← same) stored,
                          rw (← same) a,
                          (subject, e, k ∙ ap (λ i. some (some i)) own),
                          (mine, joined, ground (arith, keys), there ∙ own),
                        )
                  ]
                ]
              ]
            ]
          ]
  ]
