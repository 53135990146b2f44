-- ===== src/Domain/Words.antt =====
-- crates/marginalis-domain/src/model/note.rs: the enumerations that a database or an interface writes
-- as words, with their two conversions, and the levels of access.
use marginalis.Prelude.{ℕ, ◌≡◌, refl, Bool, Result, ok, err, leb, if◌then◌else◌}
use marginalis.Text.{Text, codes, ◌=t=◌}

pub data NoteCreationSource : Type 0 where
  web rest mcp unknown : NoteCreationSource

pub data InvalidNoteCreationSource : Type 0 where
  invalid_note_creation_source : InvalidNoteCreationSource

unfoldable pub creation_source_text : NoteCreationSource → Text
creation_source_text web = codes "web"
creation_source_text rest = codes "rest"
creation_source_text mcp = codes "mcp"
creation_source_text unknown = codes "unknown"

unfoldable pub parse_creation_source : Text → Result InvalidNoteCreationSource NoteCreationSource
parse_creation_source value =
    if value =t= codes "web"
    then ok web
    else if value =t= codes "rest"
    then ok rest
    else if value =t= codes "mcp"
    then ok mcp
    else if value =t= codes "unknown"
    then ok unknown
    else err invalid_note_creation_source

pub data NoteReviewStatus : Type 0 where
  unknown_status pending_status reviewed_status : NoteReviewStatus

pub data InvalidNoteReviewStatus : Type 0 where
  invalid_note_review_status : InvalidNoteReviewStatus

unfoldable pub review_status_text : NoteReviewStatus → Text
review_status_text unknown_status = codes "unknown"
review_status_text pending_status = codes "pending"
review_status_text reviewed_status = codes "reviewed"

unfoldable pub parse_review_status : Text → Result InvalidNoteReviewStatus NoteReviewStatus
parse_review_status value =
    if value =t= codes "unknown"
    then ok unknown_status
    else if value =t= codes "pending"
    then ok pending_status
    else if value =t= codes "reviewed"
    then ok reviewed_status
    else err invalid_note_review_status

pub data NoteRevisionKind : Type 0 where
  created content_updated acl_updated reviewed deleted restored history_restored imported :
      NoteRevisionKind

pub data InvalidNoteRevisionKind : Type 0 where
  invalid_note_revision_kind : InvalidNoteRevisionKind

unfoldable pub revision_kind_text : NoteRevisionKind → Text
revision_kind_text created = codes "created"
revision_kind_text content_updated = codes "content_updated"
revision_kind_text acl_updated = codes "acl_updated"
revision_kind_text reviewed = codes "reviewed"
revision_kind_text deleted = codes "deleted"
revision_kind_text restored = codes "restored"
revision_kind_text history_restored = codes "history_restored"
revision_kind_text imported = codes "imported"

unfoldable pub parse_revision_kind : Text → Result InvalidNoteRevisionKind NoteRevisionKind
parse_revision_kind value =
    if value =t= codes "created"
    then ok created
    else if value =t= codes "content_updated"
    then ok content_updated
    else if value =t= codes "acl_updated"
    then ok acl_updated
    else if value =t= codes "reviewed"
    then ok reviewed
    else if value =t= codes "deleted"
    then ok deleted
    else if value =t= codes "restored"
    then ok restored
    else if value =t= codes "history_restored"
    then ok history_restored
    else if value =t= codes "imported"
    then ok imported
    else err invalid_note_revision_kind

pub data NotePermission : Type 0 where
  may_read may_edit : NotePermission

-- `NoteAccess`, and `allows`, which compares the places of declaration.
pub data NoteAccess : Type 0 where
  read edit manage : NoteAccess

abbrev pub rank : NoteAccess → ℕ
rank read = 0
rank edit = 1
rank manage = 2

unfoldable pub allows : NoteAccess → NoteAccess → Bool
allows held required = leb (rank required) (rank held)

-- Every word that a conversion writes is read back as the value it was written for: for the paths by
-- which notes are created, the states of a review and the kinds of revisions.
pub words_round_trip :
    (source : NoteCreationSource) (status : NoteReviewStatus) (kind : NoteRevisionKind)
    → (parse_creation_source (creation_source_text source) ≡ ok source)
      × (parse_review_status (review_status_text status) ≡ ok status)
      × (parse_revision_kind (revision_kind_text kind) ≡ ok kind)
unfolding creation_source_text parse_creation_source review_status_text parse_review_status
    revision_kind_text parse_revision_kind
words_round_trip source status kind = (sources source, statuses status, kinds kind)
  where
    sources : (v : NoteCreationSource) → parse_creation_source (creation_source_text v) ≡ ok v
    sources web = refl
    sources rest = refl
    sources mcp = refl
    sources unknown = refl

    statuses : (v : NoteReviewStatus) → parse_review_status (review_status_text v) ≡ ok v
    statuses unknown_status = refl
    statuses pending_status = refl
    statuses reviewed_status = refl

    kinds : (v : NoteRevisionKind) → parse_revision_kind (revision_kind_text v) ≡ ok v
    kinds created = refl
    kinds content_updated = refl
    kinds acl_updated = refl
    kinds reviewed = refl
    kinds deleted = refl
    kinds restored = refl
    kinds history_restored = refl
    kinds imported = refl
