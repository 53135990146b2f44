-- ===== src/Notes/Complete.antt =====
-- Every transaction keeps the histories of notes complete.
use mathlib.Core.Path.{subst}
use marginalis.Prelude.{
  ℕ, ◌≡◌, refl, ap, ◌∙◌, Bool, true, false, not, ◌&&◌, Bool-cases, inl, inr, List, [], ◌∷◌, ◌++◌,
  Option, arith, All, ok, err, Result,
}
use marginalis.Text.{Text, ◌=t=◌}
use marginalis.Text.Equality.{=t=-eq, =t=-refl, =t=-sym}
use marginalis.Tables.{
  delete_where, select_where, exists_where, exists_where-snoc, exists_where-false_All, All-snoc,
  All-mono, All-both, delete_where-All, delete_where-test, select_where-All, exists_where-delete,
}
use marginalis.Tables.Kept.{exists_where-last, find_where-select, exists_where-select, alone-All}
use marginalis.Domain.Identity.{ParsedUrl}
use marginalis.Domain.Words.{created}
use marginalis.Notes.Store.{NoteRow, RevisionRow, NoteStore, is_note, is_revision}
use marginalis.Notes.History.{snapshot_of}
use marginalis.Notes.Mutations.{RestoreNoteError}
use marginalis.Notes.Removal.{without_purged, purged, keeps_note}
use marginalis.Notes.Calls.{
  Call, Creates, Moves, adds, advances, removes, perform, after, run, perform-Moves,
}
use marginalis.Notes.Unique.{create-HasNoteKeys, purge-HasNoteKeys}
use marginalis.Notes.Recorded.{Tells, HasHistory, told_by_other, told_anew, advance-HasHistory}

create-HasHistory :
    (first : Text → ℕ) (s s' : NoteStore) (new : NoteRow) (who : ℕ)
    → Creates s s' new who
    → HasHistory first s
    → HasHistory first s'
create-HasHistory first s s' new who c v = record {
  keys = create-HasNoteKeys s s' new who c v.keys;
  told =
      subst (λ h. All (Tells first h) s'.notes) c.history
        (subst (All (Tells first grown)) c.notes (
          All-snoc (Tells first grown) s.notes new
            (All-mono _ _ (λ r q. told_by_other first s.revisions _ r (apart r q.0) q.1) s.notes
              (All-both _ _ s.notes others v.told))
            started));
  owned = subst (All (λ h. exists_where (is_note h.note_id) s'.notes ≡ true)) c.history (
      subst
        (λ ns.
          All (λ h. exists_where (is_note h.note_id) ns ≡ true)
            (s.revisions ++ snapshot_of new who created ∷ []))
        c.notes
        (All-snoc _ s.revisions _
          (All-mono _ _ (λ h e. exists_where-snoc _ s.notes new e) s.revisions v.owned)
          (exists_where-last (is_note new.note_id) s.notes new (=t=-refl new.note_id))));
}
  where
    grown : List RevisionRow
    grown = s.revisions ++ snapshot_of new who created ∷ []

    others : All (λ r. is_note new.note_id r ≡ false) s.notes
    others = exists_where-false_All _ s.notes c.unused

    apart : (r : NoteRow) → is_note new.note_id r ≡ false → (new.note_id =t= r.note_id) ≡ false
    apart r e = =t=-sym new.note_id r.note_id ∙ e

    started : Tells first grown new
    started =
        told_anew first s.revisions new who created c.fresh
          (λ k low begun high. inl (omega (arith, low, high, c.first)))
          (All-mono _ _
            (λ h e q. absurd (
              cc (
                c.unused,
                subst (λ i. exists_where (is_note i) s.notes ≡ true) (=t=-eq h.note_id _ q) e,
              )))
            s.revisions v.owned)

told_when_kept :
    (first : Text → ℕ) (history : List RevisionRow) (keeps : Text → Bool) (r : NoteRow)
    → keeps r.note_id ≡ true
    → Tells first history r
    → Tells first (select_where (λ h. keeps h.note_id) history) r
told_when_kept first history keeps r e t = record {
  who = t.who;
  kind = t.kind;
  current = find_where-select _ (λ h. keeps h.note_id) (λ h q. keep h _ q) history ∙ t.current;
  complete = λ k low begun high.
      exists_where-select _ (λ h. keeps h.note_id) (λ h q. keep h k q) history
      ∙ t.complete k low begun high;
  bounded =
      All-mono _ _ (λ h q. q.0) (select_where (λ h. keeps h.note_id) history)
        (select_where-All _ (λ h. keeps h.note_id) history t.bounded);
}
  where
    keep : (h : RevisionRow) (k : ℕ) → is_revision r.note_id k h ≡ true → keeps h.note_id ≡ true
    keep h k q =
        let same : (h.note_id =t= r.note_id) ≡ true = ground arith in
        ap keeps (=t=-eq h.note_id r.note_id same) ∙ e

purge-HasHistory :
    (first : Text → ℕ) (s : NoteStore) (cutoff : ℕ)
    → HasHistory first s
    → HasHistory first (without_purged s cutoff)
unfolding without_purged
purge-HasHistory first s cutoff v = record {
  keys = purge-HasNoteKeys s cutoff v.keys;
  told =
      All-mono _ (Tells first (select_where (λ h. keeps h.note_id) s.revisions))
        (λ r q. told_when_kept first s.revisions keeps r (stays r (q.0.0 q.1)) q.0.1)
        (delete_where (purged cutoff) s.notes)
        (All-both _ _ _
          (delete_where-All _ (purged cutoff) s.notes (
            All-both _ _ s.notes (alone-All NoteRow.note_id (purged cutoff) s.notes v.keys) v.told))
          (delete_where-test (purged cutoff) s.notes));
  owned =
      All-mono _ _ (λ h q. remains h q.0 q.1) (select_where (λ h. keeps h.note_id) s.revisions)
        (select_where-All _ (λ h. keeps h.note_id) s.revisions v.owned);
}
  where
    keeps : Text → Bool
    keeps = keeps_note (purged cutoff) s.notes

    stays :
        (r : NoteRow)
        → exists_where (λ x. x.note_id =t= r.note_id && purged cutoff x) s.notes ≡ false
        → keeps r.note_id ≡ true
    stays r e = ap not e

    spared :
        (i : Text)
        → keeps i ≡ true
        → exists_where (λ x. is_note i x && purged cutoff x) s.notes ≡ false
    spared i e = elim (Bool-cases (exists_where (λ x. is_note i x && purged cutoff x) s.notes)) [
      | inl p ↦ absurd (cc (e, ap not p))
      | inr p ↦ p
    ]

    remains :
        (h : RevisionRow)
        → exists_where (is_note h.note_id) s.notes ≡ true
        → keeps h.note_id ≡ true
        → exists_where (is_note h.note_id) (delete_where (purged cutoff) s.notes) ≡ true
    remains h there kept =
        exists_where-delete (is_note h.note_id) (purged cutoff) s.notes (
          All-mono _ _ (λ x p q. ground arith) s.notes
            (exists_where-false_All _ s.notes (spared h.note_id kept)))
        ∙ there

Moves-HasHistory :
    (first : Text → ℕ) (s s' : NoteStore) (c : Call)
    → Moves s s' c
    → HasHistory first s
    → HasHistory first s'
Moves-HasHistory first s s' c (adds new who m e n) v = create-HasHistory first s s' new who m v
Moves-HasHistory first s s' c (advances id old new who kind m e) v =
    advance-HasHistory first s s' id old new who kind m v
Moves-HasHistory first s s' c (removes cutoff e p) v =
    subst (HasHistory first) e (purge-HasHistory first s cutoff v)

step-HasHistory :
    (parse_url : Text → Option ParsedUrl) (first : Text → ℕ) (s : NoteStore) (c : Call)
    (r : Result RestoreNoteError NoteStore)
    → perform parse_url s c ≡ r
    → HasHistory first s
    → HasHistory first (after s r)
step-HasHistory parse_url first s c (err x) e v = v
step-HasHistory parse_url first s c (ok s') e v =
    Moves-HasHistory first s s' c (perform-Moves parse_url s c s' v.keys e) v

-- Let `first` give for each id the revision with which the history of the note begins: 1 for a note made
-- here, the revision at which it came in for a note that was migrated or imported. If in a store the
-- ids of notes are unique, every recorded revision belongs to a note, and the history of every note
-- holds a copy of its current row as the recorded row of its current revision, each revision from
-- `first` (and from 1) on to the current one, and none later, then this holds too after any
-- transactions, whichever of them fail.
pub run-HasHistory :
    (parse_url : Text → Option ParsedUrl) (first : Text → ℕ) (s : NoteStore) (cs : List Call)
    → HasHistory first s
    → HasHistory first (run parse_url s cs)
unfolding run
run-HasHistory parse_url first s [] v = v
run-HasHistory parse_url first s (c ∷ cs) v =
    run-HasHistory parse_url first (after s (perform parse_url s c)) cs
      (step-HasHistory parse_url first s c (perform parse_url s c) refl v)
