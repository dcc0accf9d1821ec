-- ===== src/Services/Notes/Tagging.antt =====
-- The tags behind a list of names.
use ai_secure_collaboration.Prelude.{
  ℕ, ◌≡◌, ◌⊎◌, refl, sym, ap, ◌∙◌, inl, inr, false, List, [], ◌∷◌, In, Str, is_empty, strip,
  Option-cases, Bool-cases, true,
}
use ai_secure_collaboration.External.Sql.{Sql}
use ai_secure_collaboration.External.Redis.{Redis}
use ai_secure_collaboration.Core.Action.{Result-cases, ok, err}
use ai_secure_collaboration.Models.{Tag, tag_schema}
use ai_secure_collaboration.Repositories.{Session, create, stored}
use ai_secure_collaboration.Services.Notes.{
  cleaned_name, folded, get_by_name, get_or_create_by_name, found_or_create, resolve_tags,
}
use ai_secure_collaboration.Services.Notes.Tags.{outcome}

module _ (lower : Str → Str) (sql : Sql) (redis : Redis) where
  open sql use {rows, insert_some}

  -- A tag stands for a name: it has the cleaned name, or what the lookup makes of that.
  abbrev pub StandsFor : Str → Tag → Type 0
  StandsFor name t =
      (t.name ≡ folded lower (cleaned_name lower name)) ⊎ (t.name ≡ cleaned_name lower name)

  -- The tags are those of the names that are not blank, and they are stored.
  pub record Tagged (names : List Str) (stored_tags tags : List Tag) : Type 0 where
    pub of_names :
        (t : Tag)
        → In t tags
        → In t stored_tags
          × ((name : Str) × In name names × (is_empty (strip name) ≡ false) × StandsFor name t)
    pub of_tags :
        (name : Str)
        → In name names
        → is_empty (strip name) ≡ false
        → (t : Tag) × In t tags × StandsFor name t

  -- A lookup or an insertion keeps every tag.
  kept_tags :
      (name : Str) (s : Session sql redis) (t : Tag)
      → In t (rows s.db.tags)
      → In t (rows (get_or_create_by_name lower sql redis name s).1.db.tags)
  unfolding get_or_create_by_name found_or_create create stored
  kept_tags name s t i =
      elim (Option-cases (get_by_name lower sql (cleaned_name lower name) s.db)) [
        | inr (old, e) ↦ rw e i
        | inl e ↦
            let make : ℕ → Tag = λ id. record { id = id; name = cleaned_name lower name } in
            elim (Option-cases (sql.insert tag_schema make s.db.tags)) [
              | inl clash ↦ rw e (rw clash i)
              | inr ((row, tbl), k) ↦
                  let (id, made, members, _) = insert_some tag_schema make s.db.tags tbl row k in
                  rw e (rw k ((members t).1 (inr i)))
            ]
      ]

  kept_by_all :
      (names : List Str) (s : Session sql redis) (t : Tag)
      → In t (rows s.db.tags)
      → In t (rows (resolve_tags lower sql redis names s).1.db.tags)
  unfolding resolve_tags
  kept_by_all [] s t i = i
  kept_by_all (name ∷ names) s t i = elim (Bool-cases (is_empty (strip name))) [
    | inl blank ↦ rw blank (kept_by_all names s t i)
    | inr filled ↦
        let first = kept_tags name s t i in
        elim (Result-cases (get_or_create_by_name lower sql redis name s)) [
          | inl (e, s₁, r) ↦ rw filled (rw r (rw r at first))
          | inr (tag, s₁, r) ↦
              let rest = kept_by_all names s₁ t (rw r at first) in
              elim (Result-cases (resolve_tags lower sql redis names s₁)) [
                | inl (e, s₂, q) ↦ rw filled (rw r (rw q (rw q at rest)))
                | inr (tags, s₂, q) ↦ rw filled (rw r (rw q (rw q at rest)))
              ]
        ]
  ]

  blank-Tagged :
      (name : Str) (names : List Str) (stored_tags tags : List Tag)
      → Tagged names stored_tags tags
      → is_empty (strip name) ≡ true
      → Tagged (name ∷ names) stored_tags tags
  blank-Tagged name names stored_tags tags h blank = record {
    of_names =
        λ t i. let (j, (n, k, filled, stands)) = h.of_names t i in (j, (n, inr k, filled, stands));
    of_tags = λ n i filled. elim i [
      | inl same ↦ cc (ap (λ z. is_empty (strip z)) same, filled, blank)
      | inr later ↦ h.of_tags n later filled
    ];
  }

  cons-Tagged :
      (name : Str) (names : List Str) (stored_tags tags : List Tag) (tag : Tag)
      → Tagged names stored_tags tags
      → is_empty (strip name) ≡ false
      → In tag stored_tags
      → StandsFor name tag
      → Tagged (name ∷ names) stored_tags (tag ∷ tags)
  cons-Tagged name names stored_tags tags tag h filled there stands = record {
    of_names = λ t i. elim i [
      | inl same ↦ rw same (there, (name, inl refl, filled, stands))
      | inr later ↦
          let (j, (n, k, full, for_n)) = h.of_names t later in (j, (n, inr k, full, for_n))
    ];
    of_tags = λ n i full. elim i [
      | inl same ↦ rw same (tag, inl refl, stands)
      | inr later ↦ let (t, j, for_n) = h.of_tags n later full in (t, inr j, for_n)
    ];
  }

  -- The tags that the names are resolved to.
  pub resolve_tags-Tagged :
      (names : List Str) (s s' : Session sql redis) (tags : List Tag)
      → resolve_tags lower sql redis names s ≡ (ok tags, s')
      → Tagged names (rows s'.db.tags) tags
  unfolding resolve_tags
  resolve_tags-Tagged [] s s' tags h =
      let none_made : [] ≡ tags = cc h in
      rw (← none_made) (record { of_names = λ t i. absurd i; of_tags = λ n i full. absurd i })
  resolve_tags-Tagged (name ∷ names) s s' tags h = elim (Bool-cases (is_empty (strip name))) [
    | inl blank ↦
        let run : resolve_tags lower sql redis (name ∷ names) s
            ≡ resolve_tags lower sql redis names s =
          rw blank refl in
        blank-Tagged name names (rows s'.db.tags) tags
          (resolve_tags-Tagged names s s' tags (sym run ∙ h)) blank
    | inr filled ↦ elim (Result-cases (get_or_create_by_name lower sql redis name s)) [
      | inl (e, s₁, r) ↦
          let run : resolve_tags lower sql redis (name ∷ names) s ≡ (err e, s₁) =
            rw filled (rw r refl) in
          cc (sym run ∙ h)
      | inr (tag, s₁, r) ↦ elim (Result-cases (resolve_tags lower sql redis names s₁)) [
        | inl (e, s₂, q) ↦
            let run : resolve_tags lower sql redis (name ∷ names) s ≡ (err e, s₂) =
              rw filled (rw r (rw q refl)) in
            cc (sym run ∙ h)
        | inr (later, s₂, q) ↦
            let run : resolve_tags lower sql redis (name ∷ names) s ≡ (ok (tag ∷ later), s₂) =
              rw filled (rw r (rw q refl)) in
            let both = sym run ∙ h in
            let same : tag ∷ later ≡ tags = cc both in
            let ended : s₂ ≡ s' = ap (λ z. z.1) both in
            let rest = resolve_tags-Tagged names s₁ s₂ later q in
            let keeps : (t : Tag) → In t (rows s₁.db.tags) → In t (rows s₂.db.tags) =
              λ t i. rw q at (kept_by_all names s₁ t i) in
            rw (← same, ← ended)
              (elim (outcome lower sql redis name s s₁ tag r) [
                | inl (there, n) ↦
                    cons-Tagged name names (rows s₂.db.tags) later tag rest filled (keeps tag there)
                      (inl n)
                | inr (there, n) ↦
                    cons-Tagged name names (rows s₂.db.tags) later tag rest filled (keeps tag there)
                      (inr n)
              ])
      ]
    ]
  ]
