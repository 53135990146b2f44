-- ===== src/Sync/Pages.antt =====
-- `sync_notes_page` of crates/marginalis-sqlite/src/note_sync.rs and `sync_notes` of
-- crates/marginalis-application/src/notes/sync.rs: one page of the notes that a principal sees, or of the
-- changes since, and the cursor of the next page.
use marginalis.Prelude.{
  ℕ, suc, ◌+◌, ◌*◌, ◌-◌, ◌^◌, min, Bool, true, false, not, ◌&&◌, ◌||◌, List, [], ◌∷◌, Option, none,
  some, ltb, leb, ◌==◌, if◌then◌else◌, Result, ok, err, ◌>>=◌, ok_or, refuse_if, take, length,
}
use marginalis.Text.{Text, byte_len, ◌=t=◌}
use marginalis.Text.Order.{text_before}
use marginalis.Tables.{find_where, select_where, insert_row}
use marginalis.Domain.Identity.{ParsedUrl}
use marginalis.Domain.Notes.{Note}
use marginalis.Principals.{StoreError, database}
use marginalis.Notes.Store.{NoteRow, NoteStore, is_note, is_deleted, level_of}
use marginalis.Notes.Rows.{DetailsRow, details, note_from_row}

pub data NoteSyncPhase : Type 0 where
  snapshot changes : NoteSyncPhase

pub data NoteSyncRemovalReason : Type 0 where
  deleted access_revoked : NoteSyncRemovalReason

pub data NoteSyncEntry : Type 0 where
  upsert : Note → NoteSyncEntry
  remove : Text → NoteSyncRemovalReason → NoteSyncEntry

pub data NoteSyncRepositoryError : Type 0 where
  invalid_cursor cursor_expired : NoteSyncRepositoryError
  storage : StoreError → NoteSyncRepositoryError

pub record CursorState : Type 0 where
  pub phase : NoteSyncPhase
  pub after_note_id : Option Text
  pub after_sequence : ℕ
  pub high_watermark : ℕ

-- A row of `note_sync_cursors`.
pub record CursorRow : Type 0 where
  pub cursor_hash : Text
  pub principal_id : ℕ
  pub state : CursorState
  pub expires_at : ℕ

-- A row of `note_sync_projection`: the kind is a removal where there is a reason.
pub record ProjectionRow : Type 0 where
  pub change_sequence : ℕ
  pub principal_id : ℕ
  pub note_id : Text
  pub reason : Option NoteSyncRemovalReason

pub record SyncStore : Type 0 where
  pub tables : NoteStore
  pub latest_change : ℕ
  pub projection : List ProjectionRow
  pub cursors : List CursorRow

-- The parser of URLs and the hash of a cursor.
pub record External : Type 0 where
  pub parse_url : Text → Option ParsedUrl
  pub hash_token : Text → Text

pub record NoteSyncPage : Type 0 where
  pub phase : NoteSyncPhase
  pub entries : List NoteSyncEntry
  pub next_cursor : Text
  pub has_more : Bool
  pub cursor_expires_at : ℕ

abbrev pub max_response_bytes : ℕ
max_response_bytes = 4 * 1024 * 1024

abbrev pub cursor_retention_ms : ℕ
cursor_retention_ms = 35 * 24 * 60 * 60 * 1000

abbrev tag_bytes : List Text → ℕ
tag_bytes [] = 0
tag_bytes (t ∷ ts) = byte_len t + tag_bytes ts

-- The estimate of an entry's size in the response.
unfoldable pub estimate : NoteSyncEntry → ℕ
estimate (upsert n) =
    6 * (byte_len n.draft.source + byte_len n.draft.title + tag_bytes n.draft.tags) + 1024
estimate (remove id reason) = 256

abbrev pub stored {ℓ} : {A : Type ℓ} → Result StoreError A → Result NoteSyncRepositoryError A
stored (err x) = err (storage x)
stored (ok v) = ok v

-- The state that a cursor stands for, or that of a first page.
unfoldable pub cursor_state :
    External → SyncStore → ℕ → Option Text → ℕ → Result NoteSyncRepositoryError CursorState
cursor_state env s principal none now = ok (record {
  phase = snapshot;
  after_note_id = none;
  after_sequence = 0;
  high_watermark = s.latest_change;
})
cursor_state env s principal (some cursor) now = do
  row ← ok_or (find_where (λ c. c.cursor_hash =t= env.hash_token cursor) s.cursors) invalid_cursor
  _ ← refuse_if (not (row.principal_id == principal)) invalid_cursor
  _ ← refuse_if (leb row.expires_at now) cursor_expired
  ok row.state

abbrev pub insert_by_id : NoteRow → List NoteRow → List NoteRow
insert_by_id r [] = r ∷ []
insert_by_id r (x ∷ xs) =
    let rest = insert_by_id r xs in if text_before r.note_id x.note_id then r ∷ x ∷ xs else x ∷ rest

-- `ORDER BY note_id`.
unfoldable pub sort_by_id : List NoteRow → List NoteRow
sort_by_id [] = []
sort_by_id (r ∷ rs) = insert_by_id r (sort_by_id rs)

abbrev pub insert_by_sequence : ProjectionRow → List ProjectionRow → List ProjectionRow
insert_by_sequence r [] = r ∷ []
insert_by_sequence r (x ∷ xs) =
    let rest = insert_by_sequence r xs in
    if leb r.change_sequence x.change_sequence then r ∷ x ∷ xs else x ∷ rest

-- `ORDER BY change_sequence`.
unfoldable pub sort_by_sequence : List ProjectionRow → List ProjectionRow
sort_by_sequence [] = []
sort_by_sequence (r ∷ rs) = insert_by_sequence r (sort_by_sequence rs)

abbrev pub behind : Option Text → Text → Bool
behind none id = true
behind (some after) id = text_before after id

abbrev some_level : Option ℕ → Bool
some_level none = false
some_level (some level) = true

-- The rows of the view, where the join with the owner's identity finds one.
abbrev pub join_row : Option DetailsRow → List DetailsRow → List DetailsRow
join_row none ds = ds
join_row (some d) ds = d ∷ ds

abbrev pub joined : NoteStore → List NoteRow → List DetailsRow
joined s [] = []
joined s (r ∷ rs) = join_row (details s r) (joined s rs)

abbrev pub visible : NoteStore → ℕ → NoteRow → Bool
visible s principal r = not (is_deleted r.deleted_at) && some_level (level_of s r.note_id principal)

-- A row becomes an entry; of a change, by the note as it is seen now.
abbrev pub entry_of_details : External → DetailsRow → Result StoreError NoteSyncEntry
entry_of_details env d = note_from_row env.parse_url d >>= λ n. ok (upsert n)

abbrev current_entry : External → Text → List DetailsRow → Result StoreError NoteSyncEntry
current_entry env id [] = ok (remove id access_revoked)
current_entry env id (d ∷ ds) = entry_of_details env d

abbrev pub entry_of_change :
    External
    → NoteStore
    → ℕ
    → ProjectionRow
    → Option NoteSyncRemovalReason
    → Result StoreError NoteSyncEntry
entry_of_change env s principal p (some reason) = ok (remove p.note_id reason)
entry_of_change env s principal p none =
    current_entry env p.note_id
      (joined s (select_where (λ r. is_note p.note_id r && visible s principal r) s.notes))

-- A row goes in front of the others unless the loop stops at it.
abbrev pub put_unless :
    {A : Type 0}
    → Bool
    → A × NoteSyncEntry
    → Result StoreError (List (A × NoteSyncEntry) × Bool)
    → Result StoreError (List (A × NoteSyncEntry) × Bool)
put_unless true row rest = ok ([], true)
put_unless false row rest = do (taken, stopped) ← rest; ok (row ∷ taken, stopped)

-- The loop that fills a page: it stops in front of the entry that would exceed the bytes, unless the
-- page is empty. The rows that were taken, with their entries, and whether it stopped.
unfoldable pub fill :
    {A : Type 0}
    → (A → Result StoreError NoteSyncEntry)
    → Bool
    → ℕ
    → List A
    → Result StoreError (List (A × NoteSyncEntry) × Bool)
fill to_entry is_first bytes [] = ok ([], false)
fill to_entry is_first bytes (r ∷ rows) = do
  entry ← to_entry r
  put_unless (not is_first && ltb max_response_bytes (bytes + estimate entry)) (r, entry)
      (fill to_entry false (bytes + estimate entry) rows)

abbrev pub entries_of {ℓ} : {A : Type ℓ} → List (A × NoteSyncEntry) → List NoteSyncEntry
entries_of [] = []
entries_of ((r, e) ∷ taken) = e ∷ entries_of taken

abbrev pub last_id : Option Text → List (DetailsRow × NoteSyncEntry) → Option Text
last_id before [] = before
last_id before ((d, e) ∷ taken) = last_id (some d.note.note_id) taken

abbrev pub last_sequence : ℕ → List (ProjectionRow × NoteSyncEntry) → ℕ
last_sequence before [] = before
last_sequence before ((p, e) ∷ taken) = last_sequence p.change_sequence taken

-- The entries of a page, whether there are more, and the state of the next page.
unfoldable pub page_of :
    External
    → SyncStore
    → ℕ
    → ℕ
    → CursorState
    → NoteSyncPhase
    → Result StoreError (List NoteSyncEntry × Bool × CursorState)
page_of env s principal limit state snapshot = do
  rows ← ok (
      take (suc limit) (
        joined s.tables (
          sort_by_id (
            select_where (λ r. visible s.tables principal r && behind state.after_note_id r.note_id)
              s.tables.notes))))
  (taken, stopped) ← fill (entry_of_details env) true 0 (take limit rows)
  let more = ltb limit (length rows) || stopped in
      ok (
        entries_of taken,
        more,
        if more then record state { after_note_id = last_id none taken } else record {
          phase = changes;
          after_note_id = none;
          after_sequence = state.high_watermark;
          high_watermark = state.high_watermark;
        },
      )
page_of env s principal limit state changes = do
  rows ← ok (
      take (suc limit) (
        sort_by_sequence (
          select_where
            (λ p. p.principal_id == principal && ltb state.after_sequence p.change_sequence)
            s.projection)))
  (taken, stopped) ←
      fill (λ p. entry_of_change env s.tables principal p p.reason) true 0 (take limit rows)
  ok (
    entries_of taken,
    ltb limit (length rows) || stopped,
    record state { after_sequence = last_sequence state.after_sequence taken },
  )

-- `i64::saturating_add` of the time for which a cursor is kept.
abbrev pub expiry : ℕ → ℕ
expiry now = min (now + cursor_retention_ms) (2 ^ 63 - 1)

-- `sync_notes_page`.
unfoldable pub sync_notes_page :
    External
    → SyncStore
    → ℕ
    → Option Text
    → ℕ
    → Text
    → ℕ
    → Result NoteSyncRepositoryError (SyncStore × NoteSyncPage)
sync_notes_page env s principal cursor limit next_cursor now = do
  state ← cursor_state env s principal cursor now
  (entries, more, next) ← stored (page_of env s principal limit state state.phase)
  cursors ← stored (
      insert_row database (λ c. c.cursor_hash =t= env.hash_token next_cursor)
        (record {
          cursor_hash = env.hash_token next_cursor;
          principal_id = principal;
          state = next;
          expires_at = expiry now;
        })
        s.cursors)
  ok (
    record s { cursors = cursors },
    record {
      phase = state.phase;
      entries = entries;
      next_cursor = next_cursor;
      has_more = more;
      cursor_expires_at = expiry now;
    },
  )
