-- ===== src/Tables.antt =====
-- SQL tables as lists of rows, and the statements that the stores use: a `SELECT` of one row, an
-- `UPDATE`, a `DELETE` and an `INSERT` under a primary key.
pub mod Keys
pub mod Kept
use mathlib.Core.Path.{subst}
use marginalis.Prelude.{
  ℕ, suc, ◌+◌, ◌≤◌, ◌≡◌, refl, Bool, true, false, not, ◌&&◌, ◌||◌, Bool-cases, inl, inr, List, [],
  ◌∷◌, ◌++◌, Option, none, some, arith, ◌==◌, if◌then◌else◌, All, Result, ok, err, length,
}

module _ {ℓ} {A : Type ℓ} where
  -- The first row that passes the test, as `fetch_optional` gives it.
  abbrev pub find_where : (A → Bool) → List A → Option A
  find_where t [] = none
  find_where t (x ∷ xs) = if t x then some x else find_where t xs

  abbrev pub update_where : (A → Bool) → (A → A) → List A → List A
  update_where t f [] = []
  update_where t f (x ∷ xs) = (if t x then f x else x) ∷ update_where t f xs

  abbrev pub select_where : (A → Bool) → List A → List A
  select_where t [] = []
  select_where t (x ∷ xs) = if t x then x ∷ select_where t xs else select_where t xs

  abbrev pub delete_where : (A → Bool) → List A → List A
  delete_where t [] = []
  delete_where t (x ∷ xs) = if t x then delete_where t xs else x ∷ delete_where t xs

  abbrev pub exists_where : (A → Bool) → List A → Bool
  exists_where t [] = false
  exists_where t (x ∷ xs) = t x || exists_where t xs

  -- How many rows a statement touches: `rows_affected`.
  abbrev pub count_where : (A → Bool) → List A → ℕ
  count_where t [] = 0
  count_where t (x ∷ xs) = if t x then suc (count_where t xs) else count_where t xs

  -- `INSERT` of a row whose key a test recognises: refused if a row has the key.
  abbrev pub insert_row : {E : Type 0} → E → (A → Bool) → A → List A → Result E (List A)
  insert_row e has_key x xs = if exists_where has_key xs then err e else ok (xs ++ x ∷ [])

module _ {ℓ} {A : Type ℓ} where
  pub find_where-test : (t : A → Bool) (xs : List A) (x : A) → find_where t xs ≡ some x → t x ≡ true
  find_where-test t [] x e = cc
  find_where-test t (y ∷ xs) x e = ground (arith, find_where-test t xs x)

  pub find_where-All {κ} :
      (P : A → Type κ) (t : A → Bool) (xs : List A) (x : A)
      → All P xs
      → find_where t xs ≡ some x
      → P x
  find_where-All P t [] x a e = cc
  find_where-All P t (y ∷ xs) x a e = elim (Bool-cases (t y)) [
    | inl h ↦ subst P (ground arith) a.0
    | inr h ↦ find_where-All P t xs x a.1 (rw h at e)
  ]

  -- Nothing is found where no row passes.
  pub find_where-none :
      (t : A → Bool) (xs : List A) → All (λ x. t x ≡ false) xs → find_where t xs ≡ none
  find_where-none t [] a = refl
  find_where-none t (x ∷ xs) a = rw a.0 (find_where-none t xs a.1)

  pub find_where-none_All :
      (t : A → Bool) (xs : List A) → find_where t xs ≡ none → All (λ x. t x ≡ false) xs
  find_where-none_All t [] e = tt
  find_where-none_All t (x ∷ xs) e = elim (Bool-cases (t x)) [
    | inl h ↦ absurd (ground arith)
    | inr h ↦ (h, find_where-none_All t xs (rw h at e))
  ]

  pub exists_where-false_All :
      (t : A → Bool) (xs : List A) → exists_where t xs ≡ false → All (λ x. t x ≡ false) xs
  exists_where-false_All t [] e = tt
  exists_where-false_All t (x ∷ xs) e = elim (Bool-cases (t x)) [
    | inl h ↦ absurd (ground arith)
    | inr h ↦ (h, exists_where-false_All t xs (ground arith))
  ]

  -- What an update does to the rows that it touches, and to the others.
  pub update_where-All {κ μ} :
      (P : A → Type κ) (Q : A → Type μ) (t : A → Bool) (f : A → A)
      → ((x : A) → P x → t x ≡ true → Q (f x))
      → ((x : A) → P x → t x ≡ false → Q x)
      → (xs : List A) → All P xs
      → All Q (update_where t f xs)
  update_where-All P Q t f touched other [] a = tt
  update_where-All P Q t f touched other (x ∷ xs) a = elim (Bool-cases (t x)) [
    | inl h ↦ rw h (touched x a.0 h, update_where-All P Q t f touched other xs a.1)
    | inr h ↦ rw h (other x a.0 h, update_where-All P Q t f touched other xs a.1)
  ]

  pub delete_where-All {κ} :
      (P : A → Type κ) (t : A → Bool) (xs : List A) → All P xs → All P (delete_where t xs)
  delete_where-All P t [] a = tt
  delete_where-All P t (x ∷ xs) a = elim (Bool-cases (t x)) [
    | inl h ↦ rw h (delete_where-All P t xs a.1)
    | inr h ↦ rw h (a.0, delete_where-All P t xs a.1)
  ]

  pub All-trivial {κ} : (P : A → Type κ) → ((x : A) → P x) → (xs : List A) → All P xs
  All-trivial P h [] = tt
  All-trivial P h (x ∷ xs) = (h x, All-trivial P h xs)

  pub All-mono {κ μ} :
      (P : A → Type κ) (Q : A → Type μ)
      → ((x : A) → P x → Q x)
      → (xs : List A) → All P xs
      → All Q xs
  All-mono P Q h [] a = tt
  All-mono P Q h (x ∷ xs) a = (h x a.0, All-mono P Q h xs a.1)

  pub All-snoc {κ} : (P : A → Type κ) (xs : List A) (x : A) → All P xs → P x → All P (xs ++ x ∷ [])
  All-snoc P [] x a h = (h, tt)
  All-snoc P (y ∷ xs) x a h = (a.0, All-snoc P xs x a.1 h)

  -- A row that was inserted stands behind the others, none of which had its key.
  pub insert_row-ok :
      {E : Type 0} (e : E) (t : A → Bool) (x : A) (xs : List A) {ys : List A}
      → insert_row e t x xs ≡ ok ys
      → (xs ++ x ∷ [] ≡ ys) × (exists_where t xs ≡ false)
  insert_row-ok e t x xs h = ground arith

  pub exists_where-snoc :
      (t : A → Bool) (xs : List A) (x : A)
      → exists_where t xs ≡ true
      → exists_where t (xs ++ x ∷ []) ≡ true
  exists_where-snoc t [] x e = cc
  exists_where-snoc t (y ∷ xs) x e = ground (arith, exists_where-snoc t xs x)

  -- An update that leaves a column alone leaves its values alone.
  pub exists_where-update :
      (t u : A → Bool) (f : A → A)
      → ((x : A) → u (f x) ≡ u x)
      → (xs : List A) → exists_where u (update_where t f xs) ≡ exists_where u xs
  exists_where-update t u f h [] = refl
  exists_where-update t u f h (x ∷ xs) = ground (arith, h x, exists_where-update t u f h xs)

  pub exists_where_mono :
      (t u : A → Bool) (xs : List A)
      → ((x : A) → t x ≡ true → u x ≡ true)
      → exists_where t xs ≡ true
      → exists_where u xs ≡ true
  exists_where_mono t u [] h e = cc
  exists_where_mono t u (x ∷ xs) h e = elim (Bool-cases (t x)) [
    | inl p ↦ ground (arith, h x p)
    | inr p ↦ ground (arith, exists_where_mono t u xs h (rw p at e))
  ]

  -- A deletion that spares the rows of a test leaves their existence alone.
  pub exists_where-delete :
      (u t : A → Bool) (xs : List A)
      → All (λ x. u x ≡ true → t x ≡ false) xs
      → exists_where u (delete_where t xs) ≡ exists_where u xs
  exists_where-delete u t [] a = refl
  exists_where-delete u t (x ∷ xs) a = elim (Bool-cases (u x)) [
    | inl p ↦ ground (arith, a.0 p)
    | inr p ↦ ground (arith, exists_where-delete u t xs a.1)
  ]

  -- A row of a test is found where every row of another test passes it, and there is one.
  pub find_where-exists :
      (u t : A → Bool) (xs : List A)
      → All (λ x. u x ≡ true → t x ≡ true) xs
      → exists_where u xs ≡ true
      → (x : A) × (find_where t xs ≡ some x)
  find_where-exists u t [] a e = absurd cc
  find_where-exists u t (x ∷ xs) a e = elim (Bool-cases (t x)) [
    | inl p ↦ (x, rw p refl)
    | inr p ↦ let (y, h) = find_where-exists u t xs a.1 (ground (arith, a.0)) in (y, rw p h)
  ]

  -- The row that an insertion appended is found by a test that no other row passes.
  pub find_where-snoc :
      (t : A → Bool) (xs : List A) (x : A)
      → All (λ y. t y ≡ false) xs
      → t x ≡ true
      → find_where t (xs ++ x ∷ []) ≡ some x
  find_where-snoc t [] x a e = rw e refl
  find_where-snoc t (y ∷ xs) x a e = rw a.0 (find_where-snoc t xs x a.1 e)

  -- No row that a deletion leaves passes its test.
  pub delete_where-test : (t : A → Bool) (xs : List A) → All (λ x. t x ≡ false) (delete_where t xs)
  delete_where-test t [] = tt
  delete_where-test t (x ∷ xs) = elim (Bool-cases (t x)) [
    | inl h ↦ rw h (delete_where-test t xs)
    | inr h ↦ rw h (h, delete_where-test t xs)
  ]

  -- The rows that a selection keeps pass its test.
  pub select_where-All {κ} :
      (P : A → Type κ) (t : A → Bool) (xs : List A)
      → All P xs
      → All (λ x. P x × (t x ≡ true)) (select_where t xs)
  select_where-All P t [] a = tt
  select_where-All P t (x ∷ xs) a = elim (Bool-cases (t x)) [
    | inl h ↦ rw h ((a.0, h), select_where-All P t xs a.1)
    | inr h ↦ rw h (select_where-All P t xs a.1)
  ]

  -- Two properties of every row.
  pub All-both {κ μ} :
      (P : A → Type κ) (Q : A → Type μ) (xs : List A)
      → All P xs
      → All Q xs
      → All (λ x. P x × Q x) xs
  All-both P Q [] a b = tt
  All-both P Q (x ∷ xs) a b = ((a.0, b.0), All-both P Q xs a.1 b.1)

  pub exists_where-count :
      (t : A → Bool) (xs : List A) → (count_where t xs == 1) ≡ true → exists_where t xs ≡ true
  exists_where-count t [] e = cc
  exists_where-count t (x ∷ xs) e = elim (Bool-cases (t x)) [
    | inl h ↦ ground arith
    | inr h ↦ ground (arith, exists_where-count t xs (rw h at e))
  ]

  pub exists_where-All :
      (t : A → Bool) (xs : List A) → exists_where t xs ≡ true → All (λ x. t x ≡ false) xs → ⊥
  exists_where-All t [] e a = cc
  exists_where-All t (x ∷ xs) e a = exists_where-All t xs (ground (arith, a.0)) a.1

  -- A test that a row of the table passes is passed by a row of the table.
  pub All-member :
      (xs : List A) → All (λ x. (u : A → Bool) → u x ≡ true → exists_where u xs ≡ true) xs
  All-member [] = tt
  All-member (x ∷ xs) = (
    (λ u h. rw h refl),
    All-mono (λ y. (u : A → Bool) → u y ≡ true → exists_where u xs ≡ true) _
        (λ y f u h. ground (arith, f u h)) xs (All-member xs),
  )
