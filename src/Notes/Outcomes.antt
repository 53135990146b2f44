-- ===== src/Notes/Outcomes.antt =====
-- What the changes of a note leave in its row: the review, the content, and the time of a deletion.
use mathlib.Core.Path.{subst}
use marginalis.Prelude.{
  ℕ, suc, ◌≤◌, ◌-◌, ◌≡◌, refl, sym, ap, ◌∙◌, Bool, true, false, ◌==◌, ltb, List, Option, none, some,
  arith, All, ok, Result, ==_refl,
}
use marginalis.Text.{Text, ◌=t=◌}
use marginalis.Text.Equality.{=t=-refl}
use marginalis.Tables.{find_where, find_where-All}
use marginalis.Tables.Keys.{find_where-replaced}
use marginalis.Domain.Identity.{ParsedUrl}
use marginalis.Domain.Words.{
  NoteReviewStatus, pending_status, reviewed_status, NoteRevisionKind, edit, manage,
  content_updated, history_restored,
}
use marginalis.Domain.Notes.{Note, soft_delete_retention_ms}
use marginalis.Principals.{StoreError}
use marginalis.Notes.Store.{NoteRow, NoteStore, is_note, row_allowed, review_columns}
use marginalis.Notes.Rows.{listed_status}
use marginalis.Notes.Mutations.{
  with_content, with_deletion, with_review, with_new_acl, with_restoration,
}
use marginalis.Notes.Changes.{
  Made, update_visible_note_with_kind-Made, soft_delete_visible_note-Made,
  mark_owned_note_reviewed-Made, replace_note_acl-Made, restore_owned_deleted_note-Made,
}
use marginalis.Notes.Calls.{
  Call, creates, updates, reverts, deletes, reviews, shares, restores, purges, perform, target_of,
  store_of-ok, restored_store-ok, reached_revision, restorable_revision,
}
use marginalis.Notes.Advance.{HasNoteKeys, Advances}

-- The row that a change left is found under the note's id.
pub left_row :
    (s s' : NoteStore) (id : Text) (old new : NoteRow) (who : ℕ) (kind : NoteRevisionKind)
    → Advances s s' id old new who kind
    → find_where (is_note id) s'.notes ≡ some new
left_row s s' id old new who kind a =
    subst (λ ns. find_where (is_note id) ns ≡ some new) a.notes
      (find_where-replaced NoteRow.note_id id new (ap (λ k. k =t= id) a.named ∙ =t=-refl id) s.notes
        old a.found)

-- The status of the review after a change.
abbrev pub status_after : Call → NoteReviewStatus
status_after (reviews who id expected now) = reviewed_status
status_after c = pending_status

abbrev pub HasAllowedRows : NoteStore → Type 0
HasAllowedRows s = All (λ r. row_allowed s.principals r ≡ true) s.notes

abbrev row_status : NoteRow → Result StoreError NoteReviewStatus
row_status r = listed_status r.review_tracking_known r.reviewed_revision r.revision

-- A review of an earlier revision is no review of the next.
outdated :
    (ids : List ℕ) (r : NoteRow)
    → row_allowed ids r ≡ true
    → listed_status 1 r.reviewed_revision (suc r.revision) ≡ ok pending_status
unfolding row_allowed listed_status
outdated ids r e = go r.reviewed_revision r.reviewed_at r.reviewer (ground arith)
  where
    go :
        (v at by : Option ℕ)
        → review_columns r v at by ≡ true
        → listed_status 1 v (suc r.revision) ≡ ok pending_status
    go none at by h = refl
    go (some v) (some at) (some by) h =
        let low : v ≤ r.revision = ground arith in
        let apart : (v == suc r.revision) ≡ false = ground (arith, low) in
        let less : ltb v (suc r.revision) ≡ true = ground (arith, low) in rw apart (rw less refl)
    go (some v) none by h = absurd cc
    go (some v) (some at) none h = absurd cc

made_status :
    (parse_url : Text → Option ParsedUrl) (s s' : NoteStore) (id : Text) (n : ℕ)
    (test : NoteRow → Bool) (set : NoteRow → NoteRow) (who : ℕ) (kind : NoteRevisionKind)
    (note : Note) (t : NoteReviewStatus)
    → HasAllowedRows s
    → ((r : NoteRow) → test r ≡ true → n ≡ r.revision)
    → ((r : NoteRow) → row_allowed s.principals r ≡ true → row_status (set r) ≡ ok t)
    → Made parse_url s s' id test set who kind note
    → (r : NoteRow) × (find_where (is_note id) s'.notes ≡ some r)
      × (r.revision ≡ suc n)
      × (row_status r ≡ ok t)
made_status parse_url s s' id n test set who kind note t v h st m = (
  set m.old,
  left_row s s' id m.old (set m.old) who kind m.advances,
  m.advances.next ∙ ap suc (sym (h m.old m.hit)),
  st m.old (find_where-All _ (is_note id) s.notes m.old v m.advances.found),
)

reviewed_now : (who now : ℕ) (r : NoteRow) → row_status (with_review who now r) ≡ ok reviewed_status
unfolding listed_status
reviewed_now who now r = rw (==_refl (suc r.revision)) refl

abbrev Leaves : NoteStore → Text → ℕ → NoteReviewStatus → Type 0
Leaves s' id n t =
    (r : NoteRow) × (find_where (is_note id) s'.notes ≡ some r)
    × (r.revision ≡ suc n)
    × (row_status r ≡ ok t)

for_target :
    (s' : NoteStore) (t : NoteReviewStatus) (k : Text) (m : ℕ) (id : Text) (n : ℕ)
    → ◌≡◌ {A = Option (Text × ℕ)} (some (k, m)) (some (id, n))
    → Leaves s' k m t
    → Leaves s' id n t
for_target s' t k m id n e h =
    let same : k ≡ id = ground arith in
    let at : m ≡ n = ground arith in
    subst (λ i. Leaves s' i n t) same (subst (λ x. Leaves s' k x t) at h)

-- Where no two notes have the same id and every row passes the checks of the table, a change of a note
-- that commits leaves the note's row at the revision after the one that was expected, with the review
-- pending, unless the change is the owner's review: then the new revision is the reviewed one.
pub change_review :
    (parse_url : Text → Option ParsedUrl) (s s' : NoteStore) (c : Call) (id : Text) (n : ℕ)
    → HasNoteKeys s
    → HasAllowedRows s
    → perform parse_url s c ≡ ok s'
    → target_of c ≡ some (id, n)
    → (r : NoteRow) × (find_where (is_note id) s'.notes ≡ some r)
      × (r.revision ≡ suc n)
      × (listed_status r.review_tracking_known r.reviewed_revision r.revision ≡ ok (status_after c))
unfolding perform
change_review parse_url s s' (creates k owner draft now via links) id n v a e t = absurd cc
change_review parse_url s s' (purges cutoff) id n v a e t = absurd cc
change_review parse_url s s' (updates who k m draft links now) id n v a e t =
    let (note, r) = store_of-ok _ s' e in
    for_target s' _ k m id n t (
      made_status parse_url s s' k m _ (with_content draft now) who content_updated note
        pending_status a (reached_revision s k m who edit) (outdated s.principals)
        (update_visible_note_with_kind-Made parse_url s who k m draft links now _ s' note v r))
change_review parse_url s s' (reverts who k m draft links now) id n v a e t =
    let (note, r) = store_of-ok _ s' e in
    for_target s' _ k m id n t (
      made_status parse_url s s' k m _ (with_content draft now) who history_restored note
        pending_status a (reached_revision s k m who edit) (outdated s.principals)
        (update_visible_note_with_kind-Made parse_url s who k m draft links now _ s' note v r))
change_review parse_url s s' (deletes who k m now) id n v a e t =
    let (note, r) = store_of-ok _ s' e in
    for_target s' _ k m id n t (
      made_status parse_url s s' k m _ (with_deletion now) who _ note pending_status a
        (reached_revision s k m who manage) (outdated s.principals)
        (soft_delete_visible_note-Made parse_url s who k m now s' note v r))
change_review parse_url s s' (reviews who k m now) id n v a e t =
    let (note, r) = store_of-ok _ s' e in
    for_target s' _ k m id n t (
      made_status parse_url s s' k m _ (with_review who now) who _ note reviewed_status a
        (reached_revision s k m who manage) (λ r h. reviewed_now who now r)
        (mark_owned_note_reviewed-Made parse_url s who k m now s' note v r))
change_review parse_url s s' (shares who k entries m now) id n v a e t =
    let (note, r) = store_of-ok _ s' e in
    for_target s' _ k m id n t (
      made_status parse_url s s' k m _ (with_new_acl now) who _ note pending_status a
        (reached_revision s k m who manage) (outdated s.principals)
        (replace_note_acl-Made parse_url s who k entries m now s' note v r))
change_review parse_url s s' (restores who k m now) id n v a e t =
    let (note, r) = restored_store-ok _ s' e in
    for_target s' _ k m id n t (
      made_status parse_url s s' k m _ (with_restoration now) who _ note pending_status a
        (restorable_revision k m (now - soft_delete_retention_ms) who) (outdated s.principals)
        (restore_owned_deleted_note-Made parse_url s who k m now s' note v r))
