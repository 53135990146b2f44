-- ===== src/Sync/Examples.antt =====
-- The theorems on pages at a principal who sees two notes and takes one of them at a time.
use marginalis.Prelude.{
  ℕ, ◌≤◌, ◌≡◌, refl, ◌⊎◌, true, false, [], ◌∷◌, none, some, arith, Result, ok, err, length,
}
use marginalis.Text.{codes}
use marginalis.Domain.Words.{NoteCreationSource}
use marginalis.Notes.Store.{level_of}
use marginalis.Notes.Calls.{creates, run}
use marginalis.Notes.Examples.{running, parse, alice, empty, first_draft, no_links, making}
use marginalis.Sync.Pages.{
  snapshot, NoteSyncRepositoryError, CursorState, SyncStore, External, NoteSyncPage,
  max_response_bytes, estimate, cursor_state, sort_by_id, sort_by_sequence, fill, page_of,
  sync_notes_page,
}
use marginalis.Sync.Loop.{total}
use marginalis.Sync.Bounds.{MovesOn}
use marginalis.Sync.Progress.{sync_page_bounded, sync_moves_on}

paging : ℕ
unfolding running level_of estimate cursor_state sort_by_id sort_by_sequence fill page_of
    sync_notes_page
paging = 0

abbrev env : External
env = record { parse_url = parse; hash_token = λ t. t }

abbrev synced : SyncStore
synced = record {
  tables =
      run parse empty
        (making ∷ creates (codes "n0") alice first_draft 105 NoteCreationSource.web no_links ∷ []);
  latest_change = 2;
  projection = [];
  cursors = [];
}

abbrev result : Result NoteSyncRepositoryError (SyncStore × NoteSyncPage)
result = sync_notes_page env synced 1 none 1 (codes "c1") 200

abbrev blank : NoteSyncPage
blank = record {
  phase = snapshot;
  entries = [];
  next_cursor = [];
  has_more = false;
  cursor_expires_at = 0;
}

abbrev store_of : Result NoteSyncRepositoryError (SyncStore × NoteSyncPage) → SyncStore
store_of (err x) = synced
store_of (ok (s, page)) = s

abbrev page_from : Result NoteSyncRepositoryError (SyncStore × NoteSyncPage) → NoteSyncPage
page_from (err x) = blank
page_from (ok (s, page)) = page

result_ok :
    sync_notes_page env synced 1 none 1 (codes "c1") 200 ≡ ok (store_of result, page_from result)
unfolding paging
result_ok = refl

-- One of the two notes is on the page, and more is to come.
result_goes_on : ((page_from result).has_more ≡ true) × (length (page_from result).entries ≡ 1)
unfolding paging
result_goes_on = (refl, refl)

sync_page_bounded_example :
    (length (page_from result).entries ≤ 1)
    × ((total (page_from result).entries ≤ max_response_bytes)
        ⊎ (length (page_from result).entries ≤ 1))
    × (((page_from result).has_more ≡ false) ⊎ (1 ≤ length (page_from result).entries))
sync_page_bounded_example =
    sync_page_bounded env synced 1 none 1 (codes "c1") 200 (store_of result) (page_from result)
      (omega arith) result_ok

sync_moves_on_example :
    (state : CursorState) × (next : CursorState) × (cursor_state env synced 1 none 200 ≡ ok state)
    × (cursor_state env (store_of result) 1 (some (codes "c1")) 300 ≡ ok next)
    × (((page_from result).has_more ≡ false) ⊎ MovesOn (page_from result).phase state next)
sync_moves_on_example =
    sync_moves_on env synced 1 none 1 (codes "c1") 200 300 (store_of result) (page_from result)
      (omega arith) result_ok (omega arith)
