-- ===== src/Notes/Unique.antt =====
-- The primary key of the table of notes, kept by every transaction.
use mathlib.Core.Path.{subst}
use marginalis.Prelude.{ℕ}
use marginalis.Text.{Text}
use marginalis.Tables.Keys.{HasKeys, replace-HasKeys, snoc-HasKeys, delete_where-HasKeys}
use marginalis.Domain.Words.{NoteRevisionKind}
use marginalis.Notes.Store.{NoteRow, NoteStore}
use marginalis.Notes.Removal.{without_purged, purged}
use marginalis.Notes.Advance.{HasNoteKeys, Advances}
use marginalis.Notes.Calls.{Call, Moves, adds, advances, removes, Creates}

pub advance-HasNoteKeys :
    (s s' : NoteStore) (id : Text) (old new : NoteRow) (who : ℕ) (kind : NoteRevisionKind)
    → Advances s s' id old new who kind
    → HasNoteKeys s
    → HasNoteKeys s'
advance-HasNoteKeys s s' id old new who kind a v =
    subst (HasKeys NoteRow.note_id) a.notes
      (replace-HasKeys NoteRow.note_id id new a.named s.notes v)

pub create-HasNoteKeys :
    (s s' : NoteStore) (new : NoteRow) (who : ℕ)
    → Creates s s' new who
    → HasNoteKeys s
    → HasNoteKeys s'
create-HasNoteKeys s s' new who c v =
    subst (HasKeys NoteRow.note_id) c.notes (snoc-HasKeys NoteRow.note_id s.notes new v c.unused)

pub purge-HasNoteKeys :
    (s : NoteStore) (cutoff : ℕ) → HasNoteKeys s → HasNoteKeys (without_purged s cutoff)
unfolding without_purged
purge-HasNoteKeys s cutoff v = delete_where-HasKeys NoteRow.note_id (purged cutoff) s.notes v

pub Moves-HasNoteKeys :
    (s s' : NoteStore) (c : Call) → Moves s s' c → HasNoteKeys s → HasNoteKeys s'
Moves-HasNoteKeys s s' c (adds new who m e n) v = create-HasNoteKeys s s' new who m v
Moves-HasNoteKeys s s' c (advances id old new who kind m e) v =
    advance-HasNoteKeys s s' id old new who kind m v
Moves-HasNoteKeys s s' c (removes cutoff e p) v = subst HasNoteKeys e (purge-HasNoteKeys s cutoff v)
