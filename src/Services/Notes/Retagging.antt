-- ===== src/Services/Notes/Retagging.antt =====
-- What an update of the row of a note and a change of its tags leave behind.
use ai_secure_collaboration.Prelude.{
  ℕ, ◌≡◌, ◌≢◌, ◌↔◌, refl, sym, ap, ◌∙◌, inl, inr, Option, none, some, List, In, Str, Option-cases,
  Bool-cases,
}
use ai_secure_collaboration.External.Sql.{Sql}
use ai_secure_collaboration.Services.Notes.Tagging.{Tagged, resolve_tags-Tagged}
use ai_secure_collaboration.Core.Exceptions.{integrity_error}
use ai_secure_collaboration.External.Redis.{Redis}
use ai_secure_collaboration.External.Json.{Json}
use ai_secure_collaboration.Core.Action.{Result-cases, ok, err, Result}
use ai_secure_collaboration.Models.{Note, note_schema}
use ai_secure_collaboration.Repositories.{Session, note_repo, update, updated}
use ai_secure_collaboration.Services.Notes.{resolve_tags, retag, repeats_tag, added_tags}
use ai_secure_collaboration.Services.Notes.Writing.{TagsOnly, resolve_tags-TagsOnly}

module _ (sql : Sql) (redis : Redis) where
  open sql use {rows, update_some}

  -- One row of the notes is now `new`, where it was `old`.
  pub record Replaced (old new : Note) (s s' : Session sql redis) : Type 0 where
    pub there : In old (rows s.db.notes) → In new (rows s'.db.notes)
    pub others : (x : Note) → x.id ≢ old.id → In x (rows s'.db.notes) ↔ In x (rows s.db.notes)

  pub update-Replaced :
      (old new : Note) (change : Note → Note) (s s' : Session sql redis)
      → ((n : Note) → (change n).id ≡ n.id)
      → update sql (note_repo sql) redis old change s ≡ (ok new, s')
      → (new ≡ change old) × Replaced old new s s'
  unfolding update updated
  update-Replaced old new change s s' same_id h =
      elim (Option-cases (sql.update note_schema old.id change s.db.notes)) [
        | inl clash ↦ cc (clash, h)
        | inr (t, k) ↦
            let run : update sql (note_repo sql) redis old change s
                ≡ (ok (change old), record s { db = record s.db { notes = t } }) =
              rw k refl in
            let both = sym run ∙ h in
            let made : change old ≡ new = cc both in
            let table : t ≡ s'.db.notes = ap (λ r. r.1.db.notes) both in
            let law = update_some note_schema old.id change s.db.notes t k in
            (
              sym made,
              record {
                there = λ i. rw (← table, ← made) ((law (change old)).1 (inr (old, i, refl, refl)));
                others = λ x far. rw (← table) (
                  λ i. elim ((law x).0 i) [
                    | inl kept ↦ kept.0
                    | inr (y, j, e, q) ↦ absurd (far (ap (λ n. n.id) q ∙ same_id y ∙ e))
                  ],
                  λ i. (law x).1 (inl (i, far)),
                );
              },
            )
      ]

  update-tags :
      (old : Note) (change : Note → Note) (s s' : Session sql redis) (res : Result Note)
      → update sql (note_repo sql) redis old change s ≡ (res, s')
      → s.db.tags ≡ s'.db.tags
  unfolding update updated
  update-tags old change s s' res h =
      elim (Option-cases (sql.update note_schema old.id change s.db.notes)) [
        | inl clash ↦
            let run : update sql (note_repo sql) redis old change s ≡ (err integrity_error, s) =
              rw clash refl in
            ap (λ r. r.1.db.tags) (sym run ∙ h)
        | inr (t, k) ↦
            let run : update sql (note_repo sql) redis old change s
                ≡ (ok (change old), record s { db = record s.db { notes = t } }) =
              rw k refl in
            ap (λ r. r.1.db.tags) (sym run ∙ h)
      ]

  module _ (json : Json) (lower : Str → Str) (show : ℕ → Str) where
    -- A change of the tags, and of nothing else.
    pub record Retagged (tag_names : Option (List Str)) (old new : Note) (s s' : Session sql redis)
        : Type 0 where
      pub kept : new ≡ record old { tags = new.tags }
      pub kept_tags : tag_names ≡ none → new.tags ≡ old.tags
      pub given_tags :
          (names : List Str)
          → tag_names ≡ some names
          → Tagged lower sql redis names (rows s'.db.tags) new.tags

    pub retag-Replaced :
        (tag_names : Option (List Str)) (old new : Note) (s s' : Session sql redis)
        → retag sql redis json lower show tag_names old s ≡ (ok new, s')
        → Retagged tag_names old new s s' × Replaced old new s s'
    unfolding retag
    retag-Replaced none old new s s' h =
        let same : old ≡ new = cc h in
        let still : s ≡ s' = ap (λ r. r.1) h in
        rw (← same, ← still)
          (
            record { kept = refl; kept_tags = λ e. refl; given_tags = λ names e. cc e },
            record { there = λ i. i; others = λ x far. (λ i. i, λ i. i) },
          )
    retag-Replaced (some tag_names) old new s s' h =
        let only = resolve_tags-TagsOnly lower sql redis tag_names s in
        elim (Result-cases (resolve_tags lower sql redis tag_names s)) [
          | inl (e, s₁, r) ↦ cc (r, h)
          | inr (tags, s₁, r) ↦ elim (Bool-cases (repeats_tag (added_tags old.tags tags))) [
            | inl twice ↦
                let run : retag sql redis json lower show (some tag_names) old s
                    ≡ (err integrity_error, s₁) =
                  rw r (rw twice refl) in
                cc (sym run ∙ h)
            | inr once ↦
                let change : Note → Note = λ n. record n { tags = tags } in
                let run : retag sql redis json lower show (some tag_names) old s
                    ≡ update sql (note_repo sql) redis old change s₁ =
                  rw r (rw once refl) in
                let ran = sym run ∙ h in
                let (made, replaced) = update-Replaced old new change s₁ s' (λ n. refl) ran in
                let tagged : TagsOnly sql redis s s₁ = rw r at only in
                let notes : s₁.db.notes ≡ s.db.notes = ap (λ q. q.db.notes) tagged in
                let tags_same : s'.db.tags ≡ s₁.db.tags =
                  sym (update-tags old change s₁ s' (ok new) ran) in
                (
                  record {
                    kept =
                        made
                        ∙ ap (λ (t : List _). record old { tags = t })
                            (sym (ap (λ n. n.tags) made));
                    kept_tags = λ e. cc e;
                    given_tags = λ names e.
                        let same : tag_names ≡ names = cc e in
                        rw (← same, tags_same, ap (λ n. n.tags) made)
                          (resolve_tags-Tagged lower sql redis tag_names s s₁ tags r);
                  },
                  record {
                    there = λ i. replaced.there (rw notes i);
                    others = λ x far. rw (← notes) (replaced.others x far);
                  },
                )
          ]
        ]
