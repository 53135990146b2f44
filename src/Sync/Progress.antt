-- ===== src/Sync/Progress.antt =====
-- What a client of the synchronisation can rely on: bounded pages, and cursors that move on.
use mathlib.Core.Path.{subst}
use marginalis.Prelude.{
  ℕ, ◌≤◌, ◌<◌, ◌≡◌, refl, ap, ◌∙◌, ◌⊎◌, false, [], ◌∷◌, ◌++◌, Option, some, leb, arith, Result, ok,
  err, >>=-eq-ok, length, ==_refl,
}
use marginalis.Text.{Text, ◌=t=◌}
use marginalis.Text.Equality.{=t=-refl}
use marginalis.Tables.{
  find_where, exists_where, insert_row, insert_row-ok, find_where-snoc, exists_where-false_All,
}
use marginalis.Principals.{StoreError, database}
use marginalis.Sync.Pages.{
  CursorState, CursorRow, SyncStore, External, NoteSyncPage, max_response_bytes, page_of,
  sync_notes_page, cursor_state, stored, expiry,
}
use marginalis.Sync.Loop.{total}
use marginalis.Sync.Bounds.{MovesOn, page_of-Page}

-- The steps of a call that returned a page.
record Returned (env : External) (s : SyncStore) (principal : ℕ) (cursor : Option Text) (limit : ℕ)
    (next_cursor : Text) (now : ℕ) (s' : SyncStore) (page : NoteSyncPage) : Type 0 where
  state : CursorState
  began : cursor_state env s principal cursor now ≡ ok state
  next : CursorState
  pages : page_of env s principal limit state page.phase ≡ ok (page.entries, page.has_more, next)
  same_phase : state.phase ≡ page.phase
  unused : exists_where (λ c. c.cursor_hash =t= env.hash_token next_cursor) s.cursors ≡ false
  cursors :
      s.cursors
        ++ record {
          cursor_hash = env.hash_token next_cursor;
          principal_id = principal;
          state = next;
          expires_at = expiry now;
        }
          ∷ []
      ≡ s'.cursors

stored_page : {A : Type 0} (r : Result StoreError A) (v : A) → stored r ≡ ok v → r ≡ ok v
stored_page (err x) v e = absurd cc
stored_page (ok w) v e = cc

sync-Returned :
    (env : External) (s : SyncStore) (principal : ℕ) (cursor : Option Text) (limit : ℕ)
    (next_cursor : Text) (now : ℕ) (s' : SyncStore) (page : NoteSyncPage)
    → sync_notes_page env s principal cursor limit next_cursor now ≡ ok (s', page)
    → Returned env s principal cursor limit next_cursor now s' page
unfolding sync_notes_page
sync-Returned env s principal cursor limit next_cursor now s' page e =
    let (state, began, e1) = >>=-eq-ok (cursor_state env s principal cursor now) _ e in
    let ((entries, more, next), pages, e2) =
      >>=-eq-ok (stored (page_of env s principal limit state state.phase)) _ e1 in
    let row : CursorRow = record {
      cursor_hash = env.hash_token next_cursor;
      principal_id = principal;
      state = next;
      expires_at = expiry now;
    } in
    let (cursors, inserted, e3) =
      >>=-eq-ok
        (stored
          (insert_row database (λ c. c.cursor_hash =t= env.hash_token next_cursor) row s.cursors))
        _ e2 in
    let (grown, unused) =
      insert_row-ok database (λ c. c.cursor_hash =t= env.hash_token next_cursor) row s.cursors
        (stored_page _ cursors inserted) in
    let shown : record {
      phase = state.phase;
      entries = entries;
      next_cursor = next_cursor;
      has_more = more;
      cursor_expires_at = expiry now;
    }
        ≡ page =
      ground arith in
    record {
      state = state;
      began = began;
      next = next;
      pages =
          subst
            (λ p. page_of env s principal limit state p.phase ≡ ok (p.entries, p.has_more, next))
            shown (stored_page _ (entries, more, next) pages);
      same_phase = ap (λ p. p.phase) shown;
      unused = unused;
      cursors = grown ∙ ground arith;
    }

-- For a limit of at least one, a page has at most so many entries; the estimated bytes of its entries are at
-- most the maximum, unless it has a single entry; and it has an entry if more are to come.
pub sync_page_bounded :
    (env : External) (s : SyncStore) (principal : ℕ) (cursor : Option Text) (limit : ℕ)
    (next_cursor : Text) (now : ℕ) (s' : SyncStore) (page : NoteSyncPage)
    → 1 ≤ limit
    → sync_notes_page env s principal cursor limit next_cursor now ≡ ok (s', page)
    → (length page.entries ≤ limit)
      × ((total page.entries ≤ max_response_bytes) ⊎ (length page.entries ≤ 1))
      × ((page.has_more ≡ false) ⊎ (1 ≤ length page.entries))
sync_page_bounded env s principal cursor limit next_cursor now s' page low e =
    let r = sync-Returned env s principal cursor limit next_cursor now s' page e in
    let p =
      page_of-Page env s principal limit r.state page.phase page.entries page.has_more r.next low
        r.pages in
    (p.short, p.within, p.going)

-- The cursor of a page is accepted from the same principal until it expires, and where more is to come
-- it stands behind the cursor that was given: behind it in the order of the ids while the notes are
-- listed, and at a later change once the changes are, so that a client that goes on never gets the
-- same page for ever.
pub sync_moves_on :
    (env : External) (s : SyncStore) (principal : ℕ) (cursor : Option Text) (limit : ℕ)
    (next_cursor : Text) (now later : ℕ) (s' : SyncStore) (page : NoteSyncPage)
    → 1 ≤ limit
    → sync_notes_page env s principal cursor limit next_cursor now ≡ ok (s', page)
    → later < expiry now
    → (state : CursorState) × (next : CursorState) × (cursor_state env s principal cursor now
        ≡ ok state)
      × (cursor_state env s' principal (some next_cursor) later ≡ ok next)
      × ((page.has_more ≡ false) ⊎ MovesOn page.phase state next)
unfolding cursor_state
sync_moves_on env s principal cursor limit next_cursor now later s' page low e early =
    let r = sync-Returned env s principal cursor limit next_cursor now s' page e in
    let p =
      page_of-Page env s principal limit r.state page.phase page.entries page.has_more r.next low
        r.pages in
    let row : CursorRow = record {
      cursor_hash = env.hash_token next_cursor;
      principal_id = principal;
      state = r.next;
      expires_at = expiry now;
    } in
    let found : find_where (λ c. c.cursor_hash =t= env.hash_token next_cursor) s'.cursors
        ≡ some row =
      subst (λ cs. find_where (λ c. c.cursor_hash =t= env.hash_token next_cursor) cs ≡ some row)
        r.cursors
        (find_where-snoc (λ c. c.cursor_hash =t= env.hash_token next_cursor) s.cursors row
          (exists_where-false_All _ s.cursors r.unused) (=t=-refl (env.hash_token next_cursor))) in
    let running : leb (expiry now) later ≡ false = ground (arith, early) in
    (r.state, r.next, r.began, rw found (rw (==_refl principal) (rw running refl)), p.moved)
