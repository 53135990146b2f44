-- ===== src/Notes/Strangers.antt =====
-- Changes that the acting principal may not make.
use mathlib.Core.Path.{subst}
use marginalis.Prelude.{
  ℕ, ◌-◌, ◌≡◌, refl, sym, ap, ◌∙◌, Bool, true, false, not, ◌&&◌, leb, Bool-cases, inl, inr, List,
  [], ◌∷◌, Option, none, some, arith, All, err,
}
use marginalis.Text.{Text}
use marginalis.Text.Equality.{=t=-eq}
use marginalis.Tables.{
  find_where, exists_where, exists_where-false_All, All-mono, All-trivial, find_where-none,
}
use marginalis.Domain.Identity.{ParsedUrl}
use marginalis.Domain.Words.{NoteAccess, edit, manage, NotePermission, may_read, may_edit}
use marginalis.Domain.Notes.{soft_delete_retention_ms}
use marginalis.Principals.{not_found}
use marginalis.Notes.Store.{
  NoteRow, AclRow, NoteStore, is_note, is_deleted, owns, shared_with, has_access, permission_level,
  access_level,
}
use marginalis.Notes.Mutations.{
  store, reached, classify_failed_mutation, require_active_note_access,
}
use marginalis.Notes.Removal.{restorable, classify_failed_restore, deleted_owned}
use marginalis.Notes.Calls.{
  Call, creates, updates, reverts, deletes, reviews, shares, restores, purges, perform, target_of,
}
use marginalis.Notes.Refused.{matches, missed_answer, perform-missed, exists_none}

-- Who makes a change of a note.
abbrev pub actor_of : Call → Option ℕ
actor_of (creates id owner draft now via links) = none
actor_of (updates who id expected draft links now) = some who
actor_of (reverts who id expected draft links now) = some who
actor_of (deletes who id expected now) = some who
actor_of (reviews who id expected now) = some who
actor_of (shares who id entries expected now) = some who
actor_of (restores who id expected now) = some who
actor_of (purges cutoff) = none

abbrev is_edit : NotePermission → Bool
is_edit may_read = false
is_edit may_edit = true

-- What a shared permission is enough for: changes of the content, where it is the one to edit.
abbrev pub grants : Call → NotePermission → Bool
grants (updates who id expected draft links now) p = is_edit p
grants (reverts who id expected draft links now) p = is_edit p
grants c p = false

module _ (s : NoteStore) (id : Text) (who : ℕ) where
  abbrev Lacks : NoteAccess → Type 0
  Lacks required = has_access s id who (access_level required) ≡ false

  edit_level : (p : NotePermission) → leb 2 (permission_level p) ≡ is_edit p
  edit_level may_read = refl
  edit_level may_edit = refl

  manage_level : (p : NotePermission) → leb 3 (permission_level p) ≡ false
  manage_level may_read = refl
  manage_level may_edit = refl

  shares_nothing :
      (t u : AclRow → Bool) (rows : List AclRow)
      → ((a : AclRow) → u a ≡ t a)
      → exists_where t rows ≡ false
      → exists_where u rows ≡ false
  shares_nothing t u [] h e = refl
  shares_nothing t u (a ∷ rows) h e = ground (arith, h a, shares_nothing t u rows)

  Lacks-edit :
      exists_where (owns id who) s.notes ≡ false
      → exists_where (λ a. shared_with id who a && is_edit a.permission) s.acl ≡ false
      → Lacks edit
  unfolding has_access
  Lacks-edit e f =
      rw
        (
          exists_none (owns id who) (λ r. true) s.notes (exists_where-false_All _ s.notes e),
          shares_nothing (λ a. shared_with id who a && is_edit a.permission)
              (λ a. shared_with id who a && leb 2 (permission_level a.permission)) s.acl
              (λ a. ap (λ b. shared_with id who a && b) (edit_level a.permission)) f,
        )
        refl

  pub Lacks-manage : exists_where (owns id who) s.notes ≡ false → Lacks manage
  unfolding has_access
  Lacks-manage e =
      rw
        (
          exists_none (owns id who) (λ r. true) s.notes (exists_where-false_All _ s.notes e),
          shares_nothing (λ a. false)
              (λ a. shared_with id who a && leb 3 (permission_level a.permission)) s.acl
              (λ a. ground (arith, manage_level a.permission)) (nothing s.acl),
        )
        refl
    where
      nothing : (rows : List AclRow) → exists_where (λ a. false) rows ≡ false
      nothing [] = refl
      nothing (a ∷ rows) = nothing rows

  -- No row is reached without the access, and the answer is that there is none.
  Lacks-All :
      (required : NoteAccess)
      → Lacks required
      → All
          (λ r.
            is_note id r
              && not (is_deleted r.deleted_at)
              && has_access s r.note_id who (access_level required)
            ≡ false)
          s.notes
  Lacks-All required e =
      All-trivial _
        (λ r. elim (Bool-cases (is_note id r)) [
          | inl p ↦ rw p (
              by_key r (
                subst (λ k. has_access s k who (access_level required) ≡ false)
                  (sym (=t=-eq r.note_id id p)) e))
          | inr p ↦ rw p refl
        ])
        s.notes
    where
      by_key :
          (r : NoteRow)
          → has_access s r.note_id who (access_level required) ≡ false
          → not (is_deleted r.deleted_at) && has_access s r.note_id who (access_level required)
            ≡ false
      by_key r h = ground arith

  all_exists_false :
      {A : Type 0} (t : A → Bool) (xs : List A)
      → All (λ x. t x ≡ false) xs
      → exists_where t xs ≡ false
  all_exists_false t [] a = refl
  all_exists_false t (x ∷ xs) a = rw a.0 (all_exists_false t xs a.1)

  Lacks-classified :
      (required : NoteAccess)
      → Lacks required
      → classify_failed_mutation s who id required ≡ not_found
  unfolding classify_failed_mutation require_active_note_access
  Lacks-classified required e = rw (all_exists_false _ s.notes (Lacks-All required e)) refl

  Lacks-unreached :
      (required : NoteAccess) (expected : ℕ)
      → Lacks required
      → All (λ r. reached s id expected who required r ≡ false) s.notes
  unfolding reached
  Lacks-unreached required expected e =
      All-mono _ _ (λ r h. ground arith) s.notes (Lacks-All required e)

  stranger-restores :
      (expected now : ℕ)
      → exists_where (owns id who) s.notes ≡ false
      → All (λ r. restorable id expected (now - soft_delete_retention_ms) who r ≡ false) s.notes
        × (find_where (deleted_owned id who) s.notes ≡ none)
  unfolding restorable
  stranger-restores expected now e =
      let others = exists_where-false_All (owns id who) s.notes e in
      (
        All-mono (λ r. owns id who r ≡ false) _ (λ r h. ground arith) s.notes others,
        find_where-none _ s.notes
            (All-mono (λ r. owns id who r ≡ false) _ (λ r h. ground arith) s.notes others),
      )

unreached :
    (s : NoteStore) (k id : Text) (p who expected : ℕ) (required : NoteAccess)
    → k ≡ id
    → p ≡ who
    → has_access s id who (access_level required) ≡ false
    → All (λ r. reached s k expected p required r ≡ false) s.notes
      × (store (classify_failed_mutation s p k required) ≡ store not_found)
unreached s k id p who expected required same by e =
    let there : has_access s k p (access_level required) ≡ false = rw (same, by) e in
    (
      Lacks-unreached s k p required expected there,
      ap store (Lacks-classified s k p required there),
    )

same_target :
    (a b : Text) (x y : ℕ) → ◌≡◌ {A = Option (Text × ℕ)} (some (a, x)) (some (b, y)) → a ≡ b
same_target a b x y q = ground arith

same_actor : (x y : ℕ) → some x ≡ some y → x ≡ y
same_actor x y q = ground arith

stranger-answers :
    (s : NoteStore) (c : Call) (id : Text) (n who : ℕ)
    → target_of c ≡ some (id, n)
    → actor_of c ≡ some who
    → exists_where (owns id who) s.notes ≡ false
    → exists_where (λ a. shared_with id who a && grants c a.permission) s.acl ≡ false
    → All (λ r. matches s c r ≡ false) s.notes × (missed_answer s c ≡ store not_found)
unfolding classify_failed_restore
stranger-answers s (creates k owner draft now via links) id n who t w e f = absurd cc
stranger-answers s (purges cutoff) id n who t w e f = absurd cc
stranger-answers s (updates p k expected draft links now) id n who t w e f =
    unreached s k id p who expected edit (same_target k id _ _ t) (same_actor p who w)
      (Lacks-edit s id who e f)
stranger-answers s (reverts p k expected draft links now) id n who t w e f =
    unreached s k id p who expected edit (same_target k id _ _ t) (same_actor p who w)
      (Lacks-edit s id who e f)
stranger-answers s (deletes p k expected now) id n who t w e f =
    unreached s k id p who expected manage (same_target k id _ _ t) (same_actor p who w)
      (Lacks-manage s id who e)
stranger-answers s (reviews p k expected now) id n who t w e f =
    unreached s k id p who expected manage (same_target k id _ _ t) (same_actor p who w)
      (Lacks-manage s id who e)
stranger-answers s (shares p k entries expected now) id n who t w e f =
    unreached s k id p who expected manage (same_target k id _ _ t) (same_actor p who w)
      (Lacks-manage s id who e)
stranger-answers s (restores p k expected now) id n who t w e f =
    let owner : exists_where (owns k p) s.notes ≡ false =
      rw (same_target k id _ _ t, same_actor p who w) e in
    let (missed, none_found) = stranger-restores s k p expected now owner in
    (missed, rw none_found refl)

-- A principal that does not own the note, and to whom no permission is granted that is enough for the
-- change, is answered that the note is not found, whatever the state of the note is: the permission to
-- edit is enough to change the content, and none is for deleting, reviewing, sharing and restoring.
pub stranger_refused :
    (parse_url : Text → Option ParsedUrl) (s : NoteStore) (c : Call) (id : Text) (n who : ℕ)
    → target_of c ≡ some (id, n)
    → actor_of c ≡ some who
    → exists_where (owns id who) s.notes ≡ false
    → exists_where (λ a. shared_with id who a && grants c a.permission) s.acl ≡ false
    → perform parse_url s c ≡ err (store not_found)
stranger_refused parse_url s c id n who t w e f =
    let (missed, told) = stranger-answers s c id n who t w e f in
    perform-missed parse_url s c id n t missed ∙ ap err told
