-- ===== src/Sync/Loop.antt =====
-- The loop that fills a page of synchronisation: within the rows and the bytes, and not empty.
use mathlib.Core.Path.{subst}
use marginalis.Prelude.{
  ℕ, ◌+◌, ◌≤◌, ◌≡◌, refl, ◌⊎◌, Bool, true, false, not, ◌&&◌, Bool-cases, inl, inr, List, [], ◌∷◌,
  ltb, arith, All, Result, ok, >>=-eq-ok, length, if◌then◌else◌,
}
use marginalis.Principals.{StoreError}
use marginalis.Sync.Pages.{
  NoteSyncEntry, max_response_bytes, estimate, put_unless, fill, entries_of,
}

-- The estimated bytes of a page's entries.
abbrev pub total : List NoteSyncEntry → ℕ
total [] = 0
total (e ∷ es) = estimate e + total es

module _ {A : Type 0} (to_entry : A → Result StoreError NoteSyncEntry) where
  -- What the loop leaves: no more entries than rows, and within the bytes but for a first entry.
  pub record Filled (P : A → Type 0) (is_first : Bool) (bytes : ℕ) (rows : List A)
      (taken : List (A × NoteSyncEntry)) (stopped : Bool) : Type 0 where
    pub short : length (entries_of taken) ≤ length rows
    pub kept : All (λ t. P t.0) taken
    pub within :
        (bytes + total (entries_of taken) ≤ max_response_bytes)
        ⊎ (length (entries_of taken) ≤ (if is_first then 1 else 0))
    pub begun : (is_first ≡ false) ⊎ ((rows ≡ []) ⊎ (1 ≤ length (entries_of taken)))
    pub ended : (stopped ≡ false) ⊎ (1 ≤ length rows)

  ok_pair :
      (x y : List (A × NoteSyncEntry) × Bool)
      → ◌≡◌ {A = Result StoreError (List (A × NoteSyncEntry) × Bool)} (ok x) (ok y)
      → x ≡ y
  ok_pair x y e = ground arith

  stopped_later : (is_first b : Bool) → (not is_first && b) ≡ true → is_first ≡ false
  stopped_later true b e = absurd cc
  stopped_later false b e = refl

  fits :
      (is_first : Bool) (bytes : ℕ) (entry : NoteSyncEntry)
      → (not is_first && ltb max_response_bytes (bytes + estimate entry)) ≡ false
      → (is_first ≡ true) ⊎ (bytes + estimate entry ≤ max_response_bytes)
  fits true bytes entry e = inl refl
  fits false bytes entry e = inr (ground arith)

  stops :
      (P : A → Type 0) (is_first : Bool) (bytes : ℕ) (r : A) (rows : List A)
      → is_first ≡ false
      → Filled P is_first bytes (r ∷ rows) [] true
  stops P is_first bytes r rows f = record {
    short = omega arith;
    kept = tt;
    within = inr (ground arith);
    begun = inl f;
    ended = inr (omega arith);
  }

  empty_total : (es : List NoteSyncEntry) → length es ≤ 0 → total es ≡ 0
  empty_total [] h = refl
  empty_total (e ∷ es) h = absurd (omega arith)

  goes_on :
      (P : A → Type 0) (is_first : Bool) (bytes : ℕ) (r : A) (rows : List A) (entry : NoteSyncEntry)
      (more : List (A × NoteSyncEntry)) (ended : Bool)
      → P r
      → (is_first ≡ true) ⊎ (bytes + estimate entry ≤ max_response_bytes)
      → Filled P false (bytes + estimate entry) rows more ended
      → Filled P is_first bytes (r ∷ rows) ((r, entry) ∷ more) ended
  goes_on P is_first bytes r rows entry more ended p fit f = record {
    short = omega (arith, f.short);
    kept = (p, f.kept);
    within = elim f.within [
      | inl w ↦ inl (omega (arith, w))
      | inr w ↦ elim fit [
        | inl first ↦ inr (rw first (omega (arith, w)))
        | inr b ↦ inl (omega (arith, b, empty_total (entries_of more) w))
      ]
    ];
    begun = inr (inr (omega arith));
    ended = inr (omega arith);
  }

  pub fill-Filled :
      (P : A → Type 0) (is_first : Bool) (bytes : ℕ) (rows : List A)
      (taken : List (A × NoteSyncEntry)) (stopped : Bool)
      → All P rows
      → fill to_entry is_first bytes rows ≡ ok (taken, stopped)
      → Filled P is_first bytes rows taken stopped
  unfolding fill
  fill-Filled P is_first bytes [] taken stopped a e =
      subst (λ t. Filled P is_first bytes [] t.0 t.1) (ok_pair ([], false) (taken, stopped) e)
        (record {
          short = omega arith;
          kept = tt;
          within = inr (ground arith);
          begun = inr (inl refl);
          ended = inl refl;
        })
  fill-Filled P is_first bytes (r ∷ rows) taken stopped a e =
      let (entry, e0, e1) = >>=-eq-ok (to_entry r) _ e in
      let rest = fill to_entry false (bytes + estimate entry) rows in
      elim (Bool-cases (not is_first && ltb max_response_bytes (bytes + estimate entry))) [
        | inl p ↦
            subst (λ t. Filled P is_first bytes (r ∷ rows) t.0 t.1)
              (ok_pair ([], true) (taken, stopped)
                (subst (λ b. put_unless {A = A} b (r, entry) rest ≡ ok (taken, stopped)) p e1))
              (stops P is_first bytes r rows (stopped_later is_first _ p))
        | inr p ↦
            let ((more, ended), f, e2) =
              >>=-eq-ok rest (λ t. ok ((r, entry) ∷ t.0, t.1))
                (subst (λ b. put_unless {A = A} b (r, entry) rest ≡ ok (taken, stopped)) p e1) in
            subst (λ t. Filled P is_first bytes (r ∷ rows) t.0 t.1)
              (ok_pair ((r, entry) ∷ more, ended) (taken, stopped) e2)
              (goes_on P is_first bytes r rows entry more ended a.0 (fits is_first bytes entry p)
                (fill-Filled P false (bytes + estimate entry) rows more ended a.1 f))
      ]
