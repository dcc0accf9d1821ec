-- ===== src/Services/Notes/Tags.antt =====
-- The tag behind a name.
use ai_secure_collaboration.Prelude.{
  refl, ℕ, ◌≡◌, ◌≢◌, ◌⊎◌, sym, ap, ◌∙◌, inl, inr, In, Str, str_eq_iff, head?-filter,
  head?-filter-none, Option-cases,
}
use ai_secure_collaboration.External.Sql.{Sql}
use ai_secure_collaboration.External.Redis.{Redis}
use ai_secure_collaboration.Core.Exceptions.{integrity_error}
use ai_secure_collaboration.Core.Action.{ok, err}
use ai_secure_collaboration.Models.{Tag, tag_schema}
use ai_secure_collaboration.Repositories.{Session, create, stored}
use ai_secure_collaboration.Services.Notes.{
  cleaned_name, folded, get_by_name, get_or_create_by_name, found_or_create,
}

module _ (lower : Str → Str) (sql : Sql) (redis : Redis) (name : Str) where
  open sql use {rows, insert_some}

  -- The tag was there already, under the name that the lookup cleans again, or it is new.
  pub outcome :
      (s s' : Session sql redis) (tag : Tag)
      → get_or_create_by_name lower sql redis name s ≡ (ok tag, s')
      → (In tag (rows s'.db.tags) × (tag.name ≡ folded lower (cleaned_name lower name)))
        ⊎ (In tag (rows s'.db.tags) × (tag.name ≡ cleaned_name lower name))
  unfolding get_or_create_by_name get_by_name found_or_create create stored
  outcome s s' tag h = elim (Option-cases (get_by_name lower sql (cleaned_name lower name) s.db)) [
    | inr (t, e) ↦
        let run : get_or_create_by_name lower sql redis name s ≡ (ok t, s) = rw e refl in
        let both = sym run ∙ h in
        let same : t ≡ tag = cc both in
        let still : s ≡ s' = ap (λ r. r.1) both in
        let (found, key) = head?-filter _ t (rows s.db.tags) e in
        inl (rw (← still) (rw (← same) found), rw (← same) ((str_eq_iff _ _).0 key))
    | inl e ↦
        let make : ℕ → Tag = λ id. record { id = id; name = cleaned_name lower name } in
        elim (Option-cases (sql.insert tag_schema make s.db.tags)) [
          | inl clash ↦ cc (e, clash, h)
          | inr ((row, t), k) ↦
              let run : get_or_create_by_name lower sql redis name s
                  ≡ (ok row, record s { db = record s.db { tags = t } }) =
                rw e (rw k) in
              let both = sym run ∙ h in
              let same : row ≡ tag = cc both in
              let saved : s'.db.tags ≡ t = sym (ap (λ r. r.1.db.tags) both) in
              let (id, made, members, _) = insert_some tag_schema make s.db.tags t row k in
              inr (
                rw saved (rw (← same) ((members row).1 (inl refl))),
                rw (← same) (ap (λ r. r.name) made),
              )
        ]
  ]

  -- Where cleaning the cleaned name again changes nothing, the tag that is returned is stored under the
  -- cleaned name, and asking again returns a tag of that name and changes nothing.
  pub get_or_create_by_name_found :
      folded lower (cleaned_name lower name) ≡ cleaned_name lower name
      → (s s' : Session sql redis) (tag : Tag)
      → get_or_create_by_name lower sql redis name s ≡ (ok tag, s')
      → (tag.name ≡ cleaned_name lower name)
        × In tag (rows s'.db.tags)
        × ((again : Tag) × (again.name ≡ cleaned_name lower name)
            × (get_or_create_by_name lower sql redis name s' ≡ (ok again, s')))
  unfolding get_or_create_by_name get_by_name found_or_create create stored
  get_or_create_by_name_found stable s s' tag h =
      let at = outcome s s' tag h in
      let there : In tag (rows s'.db.tags) = elim at [ inl a ↦ a.0 | inr b ↦ b.0 ] in
      let named : tag.name ≡ cleaned_name lower name = elim at [
        | inl a ↦ a.1 ∙ stable
        | inr b ↦ b.1
      ] in
      (
        named,
        there,
        elim (Option-cases (get_by_name lower sql (cleaned_name lower name) s'.db)) [
          | inl e ↦ cc (
            head?-filter-none _ tag (rows s'.db.tags) e there,
            (str_eq_iff tag.name (folded lower (cleaned_name lower name))).1 (named ∙ sym stable),
          )
          | inr (t, e) ↦
              let (_, key) = head?-filter _ t (rows s'.db.tags) e in
              (t, (str_eq_iff _ _).0 key ∙ stable, rw e refl)
        ],
      )

  -- Where, after a tag was returned for a name, no stored tag has the cleaned name cleaned again, asking
  -- for the name again raises an IntegrityError and changes nothing.
  pub get_or_create_by_name_clash :
      (s s' : Session sql redis) (tag : Tag)
      → ((t : Tag) → In t (rows s'.db.tags) → t.name ≢ folded lower (cleaned_name lower name))
      → get_or_create_by_name lower sql redis name s ≡ (ok tag, s')
      → get_or_create_by_name lower sql redis name s' ≡ (err integrity_error, s')
  unfolding get_or_create_by_name get_by_name found_or_create create stored
  get_or_create_by_name_clash s s' tag never h = elim (outcome s s' tag h) [
    | inl a ↦ absurd (never tag a.0 a.1)
    | inr (there, named) ↦
        elim (Option-cases (get_by_name lower sql (cleaned_name lower name) s'.db)) [
          | inr (t, e) ↦
              let (found, key) = head?-filter _ t (rows s'.db.tags) e in
              absurd (never t found ((str_eq_iff _ _).0 key))
          | inl e ↦
              let make : ℕ → Tag = λ id. record { id = id; name = cleaned_name lower name } in
              elim (Option-cases (sql.insert tag_schema make s'.db.tags)) [
                | inl clash ↦ rw e (rw clash refl)
                | inr ((row, t), k) ↦
                    let (id, made, _, free) = insert_some tag_schema make s'.db.tags t row k in
                    cc (
                      (free tag there).1,
                      (str_eq_iff tag.name row.name).1 (named ∙ sym (ap (λ r. r.name) made)),
                    )
              ]
        ]
  ]
