-- ===== src/Sync/Bounds.antt =====
-- A page of synchronisation is bounded, and one that is not the last moves the cursor on.
use mathlib.Core.Path.{subst}
use marginalis.Prelude.{
  ℕ, zero, suc, ◌≤◌, ◌<◌, ◌≡◌, refl, sym, ap, ◌⊎◌, Bool, true, false, ◌&&◌, ◌||◌, Bool-cases, inl,
  inr, List, [], ◌∷◌, Option, none, some, ltb, leb, ◌==◌, arith, All, Result, ok, >>=-eq-ok, length,
  take, take-All, length-take_le, if◌then◌else◌,
}
use marginalis.Text.{Text}
use marginalis.Text.Order.{text_before}
use marginalis.Tables.{select_where, select_where-All, All-mono, All-trivial}
use marginalis.Principals.{StoreError}
use marginalis.Notes.Store.{NoteRow, NoteStore}
use marginalis.Notes.Rows.{DetailsRow, details}
use marginalis.Notes.Changes.{details-note}
use marginalis.Sync.Pages.{
  NoteSyncPhase, snapshot, changes, NoteSyncEntry, CursorState, ProjectionRow, SyncStore, External,
  max_response_bytes, fill, entries_of, last_id, last_sequence, page_of, sort_by_id, insert_by_id,
  sort_by_sequence, insert_by_sequence, behind, visible, joined, join_row, entry_of_details,
  entry_of_change,
}
use marginalis.Sync.Loop.{fill-Filled, total}

-- A page of the first rows, up to the limit.
record Paged {A : Type 0} (P : A → Type 0) (limit : ℕ) (rows : List A)
    (taken : List (A × NoteSyncEntry)) (stopped : Bool) : Type 0 where
  pub short : length (entries_of taken) ≤ limit
  kept : All (λ t. P t.0) taken
  within : (total (entries_of taken) ≤ max_response_bytes) ⊎ (length (entries_of taken) ≤ 1)
  more : ((ltb limit (length rows) || stopped) ≡ false) ⊎ (1 ≤ length (entries_of taken))

no_rows :
    {A : Type 0} (limit : ℕ) (rows : List A) → 1 ≤ limit → take limit rows ≡ [] → length rows ≡ 0
no_rows zero rows h e = absurd (omega arith)
no_rows (suc n) [] h e = refl
no_rows (suc n) (r ∷ rows) h e = absurd cc

fill-Paged :
    {A : Type 0} (to_entry : A → Result StoreError NoteSyncEntry) (P : A → Type 0) (limit : ℕ)
    (rows : List A) (taken : List (A × NoteSyncEntry)) (stopped : Bool)
    → 1 ≤ limit
    → All P rows
    → fill to_entry true 0 (take limit rows) ≡ ok (taken, stopped)
    → Paged P limit rows taken stopped
fill-Paged to_entry P limit rows taken stopped low a e =
    let f =
      fill-Filled to_entry P true 0 (take limit rows) taken stopped (take-All P limit rows a) e in
    record {
      short = omega (arith, f.short, length-take_le limit rows);
      kept = f.kept;
      within = elim f.within [ inl w ↦ inl (omega (arith, w)) | inr w ↦ inr w ];
      more = elim f.begun [
        | inl g ↦ absurd cc
        | inr g ↦ elim g [
          | inr begun ↦ inr begun
          | inl empty ↦
              let none_left = no_rows limit rows low empty in
              elim f.ended [
                | inl q ↦ inl (ground (arith, none_left, q))
                | inr q ↦ absurd (omega (arith, q, ap length empty))
              ]
        ]
      ];
    }

-- The last of the rows has what all of them have.
last_id-All :
    (P : Text → Type 0) (before : Option Text) (taken : List (DetailsRow × NoteSyncEntry))
    → All (λ t. P t.0.note.note_id) taken
    → (1 ≤ length (entries_of taken)) ⊎ ((id : Text) × (before ≡ some id) × P id)
    → (id : Text) × (last_id before taken ≡ some id) × P id
last_id-All P before [] a h = elim h [ inl e ↦ absurd (omega arith) | inr k ↦ k ]
last_id-All P before ((d, e) ∷ taken) a h =
    last_id-All P (some d.note.note_id) taken a.1 (inr (d.note.note_id, refl, a.0))

last_sequence_above :
    (low before : ℕ) (taken : List (ProjectionRow × NoteSyncEntry))
    → All (λ t. low < t.0.change_sequence) taken
    → (1 ≤ length (entries_of taken)) ⊎ (low < before)
    → low < last_sequence before taken
last_sequence_above low before [] a h = elim h [ inl e ↦ absurd (omega arith) | inr k ↦ k ]
last_sequence_above low before ((p, e) ∷ taken) a h =
    last_sequence_above low p.change_sequence taken a.1 (inr a.0)

module _ (P : NoteRow → Type 0) where
  insert_by_id-All : (r : NoteRow) (rs : List NoteRow) → P r → All P rs → All P (insert_by_id r rs)
  insert_by_id-All r [] p a = (p, tt)
  insert_by_id-All r (x ∷ xs) p a = elim (Bool-cases (text_before r.note_id x.note_id)) [
    | inl e ↦ rw e (p, a)
    | inr e ↦ rw e (a.0, insert_by_id-All r xs p a.1)
  ]

  sort_by_id-All : (rs : List NoteRow) → All P rs → All P (sort_by_id rs)
  unfolding sort_by_id
  sort_by_id-All [] a = tt
  sort_by_id-All (r ∷ rs) a = insert_by_id-All r (sort_by_id rs) a.0 (sort_by_id-All rs a.1)

  join_row-All :
      (o : Option DetailsRow) (ds : List DetailsRow)
      → ((d : DetailsRow) → o ≡ some d → P d.note)
      → All (λ d. P d.note) ds
      → All (λ d. P d.note) (join_row o ds)
  join_row-All none ds h a = a
  join_row-All (some d) ds h a = (h d refl, a)

  joined-All : (s : NoteStore) (rs : List NoteRow) → All P rs → All (λ d. P d.note) (joined s rs)
  joined-All s [] a = tt
  joined-All s (r ∷ rs) a =
      join_row-All (details s r) (joined s rs) (λ d e. subst P (sym (details-note s r d e)) a.0)
        (joined-All s rs a.1)

module _ (P : ProjectionRow → Type 0) where
  insert_by_sequence-All :
      (r : ProjectionRow) (rs : List ProjectionRow)
      → P r
      → All P rs
      → All P (insert_by_sequence r rs)
  insert_by_sequence-All r [] p a = (p, tt)
  insert_by_sequence-All r (x ∷ xs) p a =
      elim (Bool-cases (leb r.change_sequence x.change_sequence)) [
        | inl e ↦ rw e (p, a)
        | inr e ↦ rw e (a.0, insert_by_sequence-All r xs p a.1)
      ]

  sort_by_sequence-All : (rs : List ProjectionRow) → All P rs → All P (sort_by_sequence rs)
  unfolding sort_by_sequence
  sort_by_sequence-All [] a = tt
  sort_by_sequence-All (r ∷ rs) a =
      insert_by_sequence-All r (sort_by_sequence rs) a.0 (sort_by_sequence-All rs a.1)

abbrev rows_behind : SyncStore → ℕ → CursorState → List NoteRow
rows_behind s principal state =
    select_where (λ r. visible s.tables principal r && behind state.after_note_id r.note_id)
      s.tables.notes

abbrev IsBehind : CursorState → Text → Type 0
IsBehind state id = behind state.after_note_id id ≡ true

-- The cursor of the next page is behind that of this one.
abbrev pub MovesOn : NoteSyncPhase → CursorState → CursorState → Type 0
MovesOn snapshot state next =
    (id : Text) × (next.after_note_id ≡ some id) × (behind state.after_note_id id ≡ true)
MovesOn changes state next = state.after_sequence < next.after_sequence

pub record Page (limit : ℕ) (phase : NoteSyncPhase) (state : CursorState)
    (entries : List NoteSyncEntry) (more : Bool) (next : CursorState) : Type 0 where
  pub short : length entries ≤ limit
  pub within : (total entries ≤ max_response_bytes) ⊎ (length entries ≤ 1)
  pub going : (more ≡ false) ⊎ (1 ≤ length entries)
  pub moved : (more ≡ false) ⊎ MovesOn phase state next

page_eq :
    (x y : List NoteSyncEntry × Bool × CursorState)
    → ◌≡◌ {A = Result StoreError (List NoteSyncEntry × Bool × CursorState)} (ok x) (ok y)
    → x ≡ y
page_eq x y e = ground arith

next_snapshot :
    (state : CursorState) (more : Bool) (taken : List (DetailsRow × NoteSyncEntry))
    → All (λ t. behind state.after_note_id t.0.note.note_id ≡ true) taken
    → (more ≡ false) ⊎ (1 ≤ length (entries_of taken))
    → (more ≡ false)
      ⊎ MovesOn snapshot state (
          if more then record state { after_note_id = last_id none taken } else record {
            phase = changes;
            after_note_id = none;
            after_sequence = state.high_watermark;
            high_watermark = state.high_watermark;
          })
next_snapshot state false taken a h = inl refl
next_snapshot state true taken a h = elim h [
  | inl e ↦ absurd cc
  | inr some_taken ↦
      inr (last_id-All (λ id. behind state.after_note_id id ≡ true) none taken a (inl some_taken))
]

pub page_of-Page :
    (env : External) (s : SyncStore) (principal limit : ℕ) (state : CursorState)
    (phase : NoteSyncPhase) (entries : List NoteSyncEntry) (more : Bool) (next : CursorState)
    → 1 ≤ limit
    → page_of env s principal limit state phase ≡ ok (entries, more, next)
    → Page limit phase state entries more next
unfolding page_of
page_of-Page env s principal limit state snapshot entries more next low e =
    let rows = take (suc limit) (joined s.tables (sort_by_id (rows_behind s principal state))) in
    let behind_all : All (λ d. behind state.after_note_id d.note.note_id ≡ true) rows =
      take-All _ (suc limit) _ (
        joined-All (λ r. behind state.after_note_id r.note_id ≡ true) s.tables _
          (sort_by_id-All (λ r. behind state.after_note_id r.note_id ≡ true) _
            (All-mono _ _ (λ r h. ground (arith, h.1)) (rows_behind s principal state)
              (select_where-All (λ r. Unit {0}) _ s.tables.notes
                (All-trivial _ (λ r. tt) s.tables.notes))))) in
    let ((taken, stopped), f, e1) =
      >>=-eq-ok (fill (entry_of_details env) true 0 (take limit rows)) _ e in
    let p =
      fill-Paged (entry_of_details env) (λ d. behind state.after_note_id d.note.note_id ≡ true)
        limit rows taken stopped low behind_all f in
    subst (λ x. Page limit snapshot state x.0 x.1 x.2) (page_eq _ (entries, more, next) e1)
      (record {
        short = p.short;
        within = p.within;
        going = p.more;
        moved = next_snapshot state (ltb limit (length rows) || stopped) taken p.kept p.more;
      })
page_of-Page env s principal limit state changes entries more next low e =
    let rows = take (suc limit) (
      sort_by_sequence (
        select_where
          (λ p. p.principal_id == principal && ltb state.after_sequence p.change_sequence)
          s.projection)) in
    let later_all : All (λ p. state.after_sequence < p.change_sequence) rows =
      take-All _ (suc limit) _ (
        sort_by_sequence-All (λ p. state.after_sequence < p.change_sequence) _
          (All-mono _ _ (λ p h. ground (arith, h.1)) _
            (select_where-All (λ p. Unit {0}) _ s.projection
              (All-trivial _ (λ p. tt) s.projection)))) in
    let ((taken, stopped), f, e1) =
      >>=-eq-ok
        (fill (λ p. entry_of_change env s.tables principal p p.reason) true 0 (take limit rows)) _
        e in
    let p =
      fill-Paged (λ p. entry_of_change env s.tables principal p p.reason)
        (λ p. state.after_sequence < p.change_sequence) limit rows taken stopped low later_all f in
    subst (λ x. Page limit changes state x.0 x.1 x.2) (page_eq _ (entries, more, next) e1)
      (record {
        short = p.short;
        within = p.within;
        going = p.more;
        moved = elim p.more [
          | inl q ↦ inl q
          | inr q ↦ inr (last_sequence_above state.after_sequence _ taken p.kept (inl q))
        ];
      })
