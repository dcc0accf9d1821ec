-- ===== src/Services/Users/Registration.antt =====
-- What a registration requires and leaves behind.
use ai_secure_collaboration.Prelude.{
  ℕ, ◌≡◌, ◌≢◌, ◌↔◌, ◌⊎◌, sym, ap, refl, ◌∙◌, inl, inr, true, In, Option, Str, str_eq_iff,
  head?-filter-none, Option-cases, Bool-cases,
}
use ai_secure_collaboration.External.Sql.{Sql}
use ai_secure_collaboration.External.Redis.{Redis}
use ai_secure_collaboration.External.Json.{Json}
use ai_secure_collaboration.Core.Exceptions.{database_error}
use ai_secure_collaboration.Core.Action.{ok, err}
use ai_secure_collaboration.Models.{User, UserRole, user_schema}
use ai_secure_collaboration.Repositories.{Session, create, commit, refresh, get_by_email, refresh}
use ai_secure_collaboration.Services.Users.{register_user, welcome}

module _ (sql : Sql) (redis : Redis) (json : Json) (hash : Str → Str) (now : ℕ) (task_id : Str)
    (email password : Str) (full_name : Option Str) where
  open sql use {rows, insert_some}

  pub record Registered (s s' : Session sql redis) (user : User) : Type 0 where
    pub was_free : (x : User) → In x (rows s.db.users) → x.email ≢ email
    pub fields :
        (user.email ≡ email)
        × (user.hashed_password ≡ hash password)
        × (user.full_name ≡ full_name)
        × (user.role ≡ UserRole.member)
        × (user.is_active ≡ true)
    pub durable_users :
        (x : User) → In x (rows s'.durable.users) ↔ ((x ≡ user) ⊎ In x (rows s.db.users))
    pub others : s'.durable ≡ record s.db { users = s'.durable.users }

  -- A registration that succeeds: no stored user had the email; the new user has it, the hash of the
  -- password, the name that was given and the role of a member, and is active; and the users that are
  -- committed are those of before and the new one, with no other table changed.
  pub register_user-Registered :
      (s s' : Session sql redis) (user : User)
      → register_user sql redis json hash now task_id email password full_name s ≡ (ok user, s')
      → Registered s s' user
  unfolding register_user create commit refresh welcome
  register_user-Registered s s' user h = elim (Option-cases (get_by_email sql email s.db)) [
    | inr (old, e) ↦ cc (e, h)
    | inl e ↦
        let make : ℕ → User = λ id. record {
          id = id;
          email = email;
          hashed_password = hash password;
          full_name = full_name;
          role = UserRole.member;
          is_active = true;
        } in
        elim (Option-cases (sql.insert user_schema make s.db.users)) [
          | inl clash ↦ cc (e, clash, h)
          | inr ((row, t), k) ↦
              let d = record s.db { users = t } in
              elim (Bool-cases (sql.reloads user_schema row.id t)) [
                | inr gone ↦
                    let run : register_user sql redis json hash now task_id email password full_name
                          s
                        ≡ (err database_error, record s { db = d; durable = d }) =
                      rw e (rw k (rw gone refl)) in
                    cc (sym run ∙ h)
                | inl there ↦
                    let run : register_user sql redis json hash now task_id email password full_name
                          s
                        ≡ (
                          ok row,
                          welcome sql redis json hash now task_id row
                              (record s { db = d; durable = d }),
                        ) =
                      rw e (rw k (rw there refl)) in
                    let both = sym run ∙ h in
                    let same : row ≡ user = cc both in
                    let saved : s'.durable ≡ d = sym (ap (λ r. r.1.durable) both) in
                    let (id, made, members, _) = insert_some user_schema make s.db.users t row k in
                    let new : user ≡ make id = sym same ∙ made in
                    record {
                      was_free = λ x i there. cc (
                        head?-filter-none _ x (rows s.db.users) e i,
                        (str_eq_iff x.email email).1 there,
                      );
                      fields = (
                        ap (λ u. u.email) new,
                        ap (λ u. u.hashed_password) new,
                        ap (λ u. u.full_name) new,
                        ap (λ u. u.role) new,
                        ap (λ u. u.is_active) new,
                      );
                      durable_users = λ x. rw saved (rw (← same) (members x));
                      others = rw saved;
                    }
              ]
        ]
  ]
