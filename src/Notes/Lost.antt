-- ===== src/Notes/Lost.antt =====
-- No change of a note is lost: an expected revision serves one change. Histories are only added to.
use mathlib.Core.Path.{subst}
use marginalis.Prelude.{
  ℕ, ◌<◌, ◌≡◌, refl, sym, ap, ◌∙◌, Bool, true, false, List, [], ◌∷◌, Option, none, some, arith, All,
  ok, err, Result,
}
use marginalis.Text.{Text, ◌=t=◌}
use marginalis.Text.Equality.{=t=-eq}
use marginalis.Tables.{
  exists_where, find_where-All, find_where-test, update_where-All, delete_where-All, All-snoc,
  All-trivial,
}
use marginalis.Domain.Identity.{ParsedUrl}
use marginalis.Notes.Store.{NoteStore, is_note}
use marginalis.Notes.Mutations.{RestoreNoteError}
use marginalis.Notes.Removal.{without_purged, purged}
use marginalis.Notes.Calls.{
  Call, Moves, adds, advances, removes, perform, after, run, target_of, created_id, perform-Moves,
}
use marginalis.Notes.Advance.{HasNoteKeys}
use marginalis.Notes.Unique.{Moves-HasNoteKeys}

-- The call makes a note with the id.
abbrev pub gives_id : Text → Option Text → Bool
gives_id id none = false
gives_id id (some new) = new =t= id

abbrev pub makes : Text → Call → Bool
makes id c = gives_id id (created_id c)

-- The note, if there is one with the id, is past the revision.
abbrev pub IsPast : Text → ℕ → NoteStore → Type 0
IsPast id n s = All (λ r. is_note id r ≡ true → n < r.revision) s.notes

Moves-IsPast :
    (s s' : NoteStore) (c : Call) (id : Text) (n : ℕ)
    → Moves s s' c
    → makes id c ≡ false
    → IsPast id n s
    → IsPast id n s'
unfolding without_purged
Moves-IsPast s s' c id n (adds new who m e t) other v =
    subst (All (λ r. is_note id r ≡ true → n < r.revision)) m.notes
      (All-snoc _ s.notes new v (λ q. absurd (cc (other, ap (gives_id id) e, q))))
Moves-IsPast s s' c id n (advances key old new who kind m t) other v =
    subst (All (λ r. is_note id r ≡ true → n < r.revision)) m.notes (
      update_where-All (λ r. is_note id r ≡ true → n < r.revision) _ (is_note key) (λ _. new)
        (λ r p e q. later q) (λ r p e. p) s.notes v)
  where
    later : is_note id new ≡ true → n < new.revision
    later q =
        let same : old.note_id ≡ new.note_id =
          =t=-eq old.note_id key (find_where-test (is_note key) s.notes old m.found)
          ∙ sym m.named in
        let before : n < old.revision =
          find_where-All (λ r. is_note id r ≡ true → n < r.revision) (is_note key) s.notes old v
            m.found (ap (λ i. i =t= id) same ∙ q) in
        omega (arith, before, m.next)
Moves-IsPast s s' c id n (removes cutoff e p) other v =
    subst (IsPast id n) e (delete_where-All _ (purged cutoff) s.notes v)

step-IsPast :
    (parse_url : Text → Option ParsedUrl) (s : NoteStore) (c : Call)
    (r : Result RestoreNoteError NoteStore) (id : Text) (n : ℕ)
    → perform parse_url s c ≡ r
    → makes id c ≡ false
    → HasNoteKeys s × IsPast id n s
    → HasNoteKeys (after s r) × IsPast id n (after s r)
step-IsPast parse_url s c (err x) id n e other v = v
step-IsPast parse_url s c (ok s') id n e other v =
    let m = perform-Moves parse_url s c s' v.0 e in
    (Moves-HasNoteKeys s s' c m v.0, Moves-IsPast s s' c id n m other v.1)

pub run-IsPast :
    (parse_url : Text → Option ParsedUrl) (s : NoteStore) (cs : List Call) (id : Text) (n : ℕ)
    → exists_where (makes id) cs ≡ false
    → HasNoteKeys s × IsPast id n s
    → HasNoteKeys (run parse_url s cs) × IsPast id n (run parse_url s cs)
unfolding run
run-IsPast parse_url s [] id n other v = v
run-IsPast parse_url s (c ∷ cs) id n other v =
    run-IsPast parse_url (after s (perform parse_url s c)) cs id n (ground arith)
      (step-IsPast parse_url s c (perform parse_url s c) id n refl (ground arith) v)

-- A change that committed leaves its note past the revision that it expected.
pub change-IsPast :
    (parse_url : Text → Option ParsedUrl) (s s' : NoteStore) (c : Call) (id : Text) (n : ℕ)
    → HasNoteKeys s
    → perform parse_url s c ≡ ok s'
    → target_of c ≡ some (id, n)
    → HasNoteKeys s' × IsPast id n s'
change-IsPast parse_url s s' c id n v e t = go (perform-Moves parse_url s c s' v e)
  where
    keyed : (k : Text) (m : ℕ) → target_of c ≡ some (k, m) → (k ≡ id) × (m ≡ n)
    keyed k m q = pair_some _ _ _ _ (sym q ∙ t)
      where
        pair_some :
            (a b : Text) (x y : ℕ)
            → ◌≡◌ {A = Option (Text × ℕ)} (some (a, x)) (some (b, y))
            → (a ≡ b) × (x ≡ y)
        pair_some a b x y q = (ground arith, ground arith)

    go : Moves s s' c → HasNoteKeys s' × IsPast id n s'
    go (adds new who m q none_expected) = absurd (cc (t, none_expected))
    go (removes cutoff q p) = absurd (cc (t, ap target_of p))
    go (advances key old new who kind m q) =
        let (same, at) = keyed key old.revision q in
        (
          Moves-HasNoteKeys s s' c (advances key old new who kind m q) v,
          subst (All (λ r. is_note id r ≡ true → n < r.revision)) m.notes (
              update_where-All (λ _. Unit {0}) (λ r. is_note id r ≡ true → n < r.revision)
                (is_note key) (λ _. new) (λ r p e q. omega (arith, at, m.next))
                (λ r p e q. absurd cc) s.notes (All-trivial _ (λ _. tt) s.notes)),
        )
