-- ===== src/Notes/Shown.antt =====
-- crates/marginalis-sqlite/src/notes.rs: what a note restored from its row says, next to the row.
use mathlib.Core.Path.{subst}
use marginalis.Prelude.{
  ℕ, zero, suc, ◌≡◌, refl, sym, ap, ◌∙◌, true, false, ltb, ◌==◌, Bool-cases, inl, inr, Option, none,
  some, arith, ok, err, Result, >>=-eq-ok,
}
use marginalis.Text.{Text}
use marginalis.Domain.Identity.{ParsedUrl, Identity, new_identity, new_principal_id}
use marginalis.Domain.Notes.{
  Note, NoteReviewTracking, untracked, tracked, new_revision, restore, status, review_status,
  review_outside, last_review,
}
use marginalis.Principals.{StoreError, corrupt}
use marginalis.Notes.Rows.{
  DetailsRow, optional_revision, optional_principal, review_of_columns, note_from_row,
  listed_status,
}

corrupt_ok : {E A : Type 0} (r : Result E A) (v : A) → corrupt r ≡ ok v → r ≡ ok v
corrupt_ok (err x) v e = absurd cc
corrupt_ok (ok w) v e = cc

revision_kept : (n m : ℕ) → new_revision n ≡ ok m → n ≡ m
unfolding new_revision
revision_kept n m e = ground arith

principal_kept : (n m : ℕ) → new_principal_id n ≡ ok m → n ≡ m
unfolding new_principal_id
principal_kept n m e = ground arith

optional_kept : (o p : Option ℕ) → optional_revision o ≡ ok p → o ≡ p
optional_kept none p e = cc
optional_kept (some v) p e =
    let (w, e0, e1) = >>=-eq-ok (corrupt (new_revision v)) _ e in
    ap some (revision_kept v w (corrupt_ok _ w e0)) ∙ cc

-- The note is within its own bounds, and is what was given.
restored_within :
    (n m : Note) → restore n ≡ ok m → (n ≡ m) × (review_outside n (last_review n.review) ≡ false)
unfolding restore
restored_within n m e = (ground arith, ground arith)

-- The review that the columns hold has the revision of its column.
abbrev AgreesWith : ℕ → Option ℕ → NoteReviewTracking → Type 0
AgreesWith known reviewed untracked = (known ≡ 0) × (reviewed ≡ none)
AgreesWith known reviewed (tracked none) = (known ≡ 1) × (reviewed ≡ none)
AgreesWith known reviewed (tracked (some r)) = (known ≡ 1) × (reviewed ≡ some r.revision)

carried :
    (k : ℕ) (r : Option ℕ) (a t : NoteReviewTracking)
    → ◌≡◌ {A = Result StoreError NoteReviewTracking} (ok a) (ok t)
    → AgreesWith k r a
    → AgreesWith k r t
carried k r a t e h = subst (AgreesWith k r) (ground arith) h

review_agrees :
    (parse_url : Text → Option ParsedUrl) (known : ℕ) (reviewed at : Option ℕ)
    (identity : Option Identity) (id : Option ℕ) (t : NoteReviewTracking)
    → review_of_columns parse_url known reviewed at identity id ≡ ok t
    → AgreesWith known reviewed t
unfolding review_of_columns
review_agrees parse_url zero none none none none t e = carried zero none untracked t e (refl, refl)
review_agrees parse_url (suc zero) none none none none t e =
    carried 1 none (tracked none) t e (refl, refl)
review_agrees parse_url (suc zero) (some r) (some at) (some i) (some id) t e =
    let (reviewer, _, e1) = >>=-eq-ok (corrupt (new_identity parse_url i.issuer i.subject)) _ e in
    carried 1 (some r)
      (tracked (
        some (record {
          revision = r;
          reviewed_at = at;
          reviewer = record { id = id; primary_identity = reviewer };
        })))
      t e1 (refl, refl)
review_agrees parse_url k r a i p t e = absurd cc

-- What a restored note shares with its row.
pub record Shows (d : DetailsRow) (n : Note) : Type 0 where
  pub draft : n.draft ≡ record { source = d.note.source; title = d.note.title; tags = d.note.tags }
  pub note_id : n.note_id ≡ d.note.note_id
  pub owner : n.owner.id ≡ d.note.creator
  pub created_at : n.created_at ≡ d.note.created_at
  pub updated_at : n.updated_at ≡ d.note.updated_at
  pub revision : n.revision ≡ d.note.revision
  pub deleted_at : n.deleted_at ≡ d.note.deleted_at
  pub review : AgreesWith d.note.review_tracking_known d.note.reviewed_revision n.review
  pub within : review_outside n (last_review n.review) ≡ false

pub note_from_row-Shows :
    (parse_url : Text → Option ParsedUrl) (d : DetailsRow) (n : Note)
    → note_from_row parse_url d ≡ ok n
    → Shows d n
unfolding note_from_row
note_from_row-Shows parse_url d n e =
    let (identity, _, e1) =
      >>=-eq-ok
        (corrupt (new_identity parse_url d.creator_identity.issuer d.creator_identity.subject)) _
        e in
    let (owner, o, e2) = >>=-eq-ok (corrupt (new_principal_id d.note.creator)) _ e1 in
    let (reviewed, a, e3) = >>=-eq-ok (optional_revision d.note.reviewed_revision) _ e2 in
    let (reviewer, _, e4) = >>=-eq-ok (optional_principal d.note.reviewer) _ e3 in
    let (review, r, e5) =
      >>=-eq-ok
        (review_of_columns parse_url d.note.review_tracking_known reviewed d.note.reviewed_at
          d.reviewer_identity reviewer)
        _ e4 in
    let (revision, v, e6) = >>=-eq-ok (corrupt (new_revision d.note.revision)) _ e5 in
    let given : Note = record {
      note_id = d.note.note_id;
      owner = record { id = owner; primary_identity = identity };
      draft = record { source = d.note.source; title = d.note.title; tags = d.note.tags };
      created_at = d.note.created_at;
      updated_at = d.note.updated_at;
      revision = revision;
      deleted_at = d.note.deleted_at;
      created_via = d.note.created_via;
      review = review;
    } in
    let (same, within) = restored_within given n (corrupt_ok _ n e6) in
    record {
      draft = ap (λ x. x.draft) (sym same);
      note_id = ap (λ x. x.note_id) (sym same);
      owner =
          ap (λ x. x.owner.id) (sym same)
          ∙ sym (principal_kept d.note.creator owner (corrupt_ok _ owner o));
      created_at = ap (λ x. x.created_at) (sym same);
      updated_at = ap (λ x. x.updated_at) (sym same);
      revision =
          ap (λ x. x.revision) (sym same)
          ∙ sym (revision_kept d.note.revision revision (corrupt_ok _ revision v));
      deleted_at = ap (λ x. x.deleted_at) (sym same);
      review =
          subst (λ x. AgreesWith d.note.review_tracking_known d.note.reviewed_revision x.review)
            same
            (subst (λ o. AgreesWith d.note.review_tracking_known o review)
              (sym (optional_kept d.note.reviewed_revision reviewed a))
              (review_agrees parse_url d.note.review_tracking_known reviewed d.note.reviewed_at
                d.reviewer_identity reviewer review r));
      within = subst (λ x. review_outside x (last_review x.review) ≡ false) same within;
    }

status_agrees :
    (known : ℕ) (reviewed : Option ℕ) (n : Note) (t : NoteReviewTracking)
    → AgreesWith known reviewed t
    → review_outside n (last_review t) ≡ false
    → listed_status known reviewed n.revision ≡ ok (status t n.revision)
unfolding listed_status status
status_agrees known reviewed n untracked h w = rw (h.0, h.1) refl
status_agrees known reviewed n (tracked none) h w = rw (h.0, h.1) refl
status_agrees known reviewed n (tracked (some r)) h w =
    elim (Bool-cases (r.revision == n.revision)) [
      | inl e ↦ rw (h.0, h.1) (rw e refl)
      | inr e ↦
          let earlier : ltb r.revision n.revision ≡ true = ground arith in
          rw (h.0, h.1) (rw (e, earlier) refl)
    ]

-- Whenever a note can be restored from its row, the status that lists compute from the three columns
-- of the row is the status of the note's review.
pub listed_status_agrees :
    (parse_url : Text → Option ParsedUrl) (d : DetailsRow) (n : Note)
    → note_from_row parse_url d ≡ ok n
    → listed_status d.note.review_tracking_known d.note.reviewed_revision d.note.revision
      ≡ ok (review_status n)
unfolding review_status
listed_status_agrees parse_url d n e =
    let h = note_from_row-Shows parse_url d n e in
    ap (listed_status d.note.review_tracking_known d.note.reviewed_revision) (sym h.revision)
    ∙ status_agrees _ _ n n.review h.review h.within
