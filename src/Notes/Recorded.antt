-- ===== src/Notes/Recorded.antt =====
-- The history of a note: it holds the note's current row and every revision before it.
use mathlib.Core.Path.{subst}
use marginalis.Prelude.{
  ℕ, ◌≤◌, ◌≡◌, sym, ap, ◌∙◌, true, false, ◌==◌, Bool-cases, inl, inr, List, [], ◌∷◌, ◌++◌, some,
  arith, All, ==_refl, ◌⊎◌,
}
use marginalis.Text.{Text, ◌=t=◌}
use marginalis.Text.Equality.{=t=-eq, =t=-refl, =t=-sym}
use marginalis.Tables.{
  find_where, update_where, exists_where, find_where-All, find_where-snoc, exists_where-snoc,
  exists_where-false_All, update_where-All, All-snoc, All-mono, find_where-test,
}
use marginalis.Tables.Keys.{replace_exists}
use marginalis.Tables.Kept.{find_where-append, exists_where-last, found_exists}
use marginalis.Domain.Words.{NoteRevisionKind}
use marginalis.Notes.Store.{NoteRow, RevisionRow, NoteStore, is_note, is_revision}
use marginalis.Notes.History.{snapshot_of}
use marginalis.Notes.Advance.{HasNoteKeys, Advances}
use marginalis.Notes.Unique.{advance-HasNoteKeys}

-- The first recorded row of the note's current revision is a copy of the note. Every earlier revision is
-- recorded too, from the one on with which the note's history begins, and no later one. A history
-- begins with 1 for a note that was made here, and later for one that was migrated or imported.
pub record Tells (first : Text → ℕ) (history : List RevisionRow) (r : NoteRow) : Type 0 where
  pub who : ℕ
  pub kind : NoteRevisionKind
  pub current :
      find_where (is_revision r.note_id r.revision) history ≡ some (snapshot_of r who kind)
  pub complete :
      (k : ℕ)
      → 1 ≤ k
      → first r.note_id ≤ k
      → k ≤ r.revision
      → exists_where (is_revision r.note_id k) history ≡ true
  pub bounded : All (λ h. (h.note_id =t= r.note_id) ≡ true → h.revision ≤ r.revision) history

pub record HasHistory (first : Text → ℕ) (s : NoteStore) : Type 0 where
  pub keys : HasNoteKeys s
  pub told : All (Tells first s.revisions) s.notes
  pub owned : All (λ h. exists_where (is_note h.note_id) s.notes ≡ true) s.revisions

snapshot_is :
    (r : NoteRow) (who : ℕ) (kind : NoteRevisionKind)
    → is_revision r.note_id r.revision (snapshot_of r who kind) ≡ true
snapshot_is r who kind = rw (=t=-refl r.note_id) (==_refl r.revision)

-- A row of another note leaves what is told of a note alone.
pub told_by_other :
    (first : Text → ℕ) (history : List RevisionRow) (h : RevisionRow) (r : NoteRow)
    → (h.note_id =t= r.note_id) ≡ false
    → Tells first history r
    → Tells first (history ++ h ∷ []) r
told_by_other first history h r n t = record {
  who = t.who;
  kind = t.kind;
  current = find_where-append _ history _ _ t.current;
  complete = λ k low begun high. exists_where-snoc _ history h (t.complete k low begun high);
  bounded = All-snoc _ history h t.bounded (λ e. absurd (cc (n, e)));
}

-- The row that a transaction recorded tells of the row that it left.
pub told_anew :
    (first : Text → ℕ) (history : List RevisionRow) (new : NoteRow) (who : ℕ)
    (kind : NoteRevisionKind)
    → exists_where (is_revision new.note_id new.revision) history ≡ false
    → ((k : ℕ)
        → 1 ≤ k
        → first new.note_id ≤ k
        → k ≤ new.revision
        → (k ≡ new.revision) ⊎ (exists_where (is_revision new.note_id k) history ≡ true))
    → All (λ h. (h.note_id =t= new.note_id) ≡ true → h.revision ≤ new.revision) history
    → Tells first (history ++ snapshot_of new who kind ∷ []) new
told_anew first history new who kind fresh before b = record {
  who = who;
  kind = kind;
  current =
      find_where-snoc _ history _ (exists_where-false_All _ history fresh)
        (snapshot_is new who kind);
  complete = λ k low begun high. elim (before k low begun high) [
    | inl e ↦ exists_where-last _ history _ (
        subst (λ m. is_revision new.note_id m (snapshot_of new who kind) ≡ true) (sym e)
          (snapshot_is new who kind))
    | inr e ↦ exists_where-snoc _ history _ e
  ];
  bounded = All-snoc _ history _ b (λ _. omega arith);
}

told_after_advance :
    (first : Text → ℕ) (s s' : NoteStore) (id : Text) (old new : NoteRow) (who : ℕ)
    (kind : NoteRevisionKind)
    → Advances s s' id old new who kind
    → All (Tells first s.revisions) s.notes
    → All
        (Tells first (s.revisions ++ snapshot_of new who kind ∷ []))
        (update_where (is_note id) (λ _. new) s.notes)
told_after_advance first s s' id old new who kind a v =
    update_where-All (Tells first s.revisions) _ (is_note id) (λ _. new) (λ r t e. renewed)
      (λ r t e. told_by_other first s.revisions _ r (apart r e) t) s.notes v
  where
    before : Tells first s.revisions old
    before = find_where-All (Tells first s.revisions) (is_note id) s.notes old v a.found

    same : old.note_id ≡ new.note_id
    same = =t=-eq _ id (find_where-test (is_note id) s.notes old a.found) ∙ sym a.named

    apart : (r : NoteRow) → is_note id r ≡ false → (new.note_id =t= r.note_id) ≡ false
    apart r e = =t=-sym new.note_id r.note_id ∙ ap (λ k. r.note_id =t= k) a.named ∙ e

    earlier : (k : ℕ) → 1 ≤ k → k ≤ new.revision → (k ≡ new.revision) ⊎ (k ≤ old.revision)
    earlier k low high = elim (Bool-cases (k == new.revision)) [
      | inl e ↦ inl (ground arith)
      | inr e ↦ inr (ground (arith, a.next))
    ]

    renewed : Tells first (s.revisions ++ snapshot_of new who kind ∷ []) new
    renewed =
        told_anew first s.revisions new who kind a.fresh
          (λ k low begun high. elim (earlier k low high) [
            | inl e ↦ inl e
            | inr e ↦ inr (
                subst (λ i. exists_where (is_revision i k) s.revisions ≡ true) same
                  (before.complete k low (subst (λ i. first i ≤ k) (sym same) begun) e))
          ])
          (All-mono _ _
            (λ h f e.
              let q : h.revision ≤ old.revision =
                f (subst (λ i. (h.note_id =t= i) ≡ true) (sym same) e) in
              omega (arith, q, a.next))
            s.revisions before.bounded)

-- A change of a note keeps the history.
pub advance-HasHistory :
    (first : Text → ℕ) (s s' : NoteStore) (id : Text) (old new : NoteRow) (who : ℕ)
    (kind : NoteRevisionKind)
    → Advances s s' id old new who kind
    → HasHistory first s
    → HasHistory first s'
advance-HasHistory first s s' id old new who kind a v = record {
  keys = advance-HasNoteKeys s s' id old new who kind a v.keys;
  told =
      subst (λ h. All (Tells first h) s'.notes) a.history
        (subst (All (Tells first (s.revisions ++ snapshot_of new who kind ∷ []))) a.notes
          (told_after_advance first s s' id old new who kind a v.told));
  owned = subst (All (λ h. exists_where (is_note h.note_id) s'.notes ≡ true)) a.history (
      All-snoc _ s.revisions _ (All-mono _ _ (λ h e. still h.note_id e) s.revisions v.owned)
        (still new.note_id there));
}
  where
    same : (r : NoteRow) → is_note id r ≡ true → new.note_id ≡ r.note_id
    same r e = a.named ∙ sym (=t=-eq r.note_id id e)

    still :
        (i : Text)
        → exists_where (is_note i) s.notes ≡ true
        → exists_where (is_note i) s'.notes ≡ true
    still i e =
        subst (λ ns. exists_where (is_note i) ns ≡ true) a.notes
          (replace_exists NoteRow.note_id id new a.named i s.notes ∙ e)

    there : exists_where (is_note new.note_id) s.notes ≡ true
    there =
        subst (λ i. exists_where (is_note i) s.notes ≡ true) (sym a.named)
          (found_exists (is_note id) s.notes old a.found)
