-- ===== src/Tables/Kept.antt =====
-- Rows that are still there after an insertion, a selection or a deletion.
use marginalis.Prelude.{
  ◌≡◌, refl, Bool, true, false, ◌&&◌, Bool-cases, inl, inr, List, [], ◌∷◌, ◌++◌, some, arith, All,
}
use marginalis.Text.{Text, ◌=t=◌}
use marginalis.Text.Equality.{=t=-sym}
use marginalis.Tables.{
  find_where, select_where, exists_where, exists_where-false_All, All-mono, All-both,
}
use marginalis.Tables.Keys.{HasKeys}

module _ {ℓ} {A : Type ℓ} where
  pub find_where-append :
      (t : A → Bool) (xs ys : List A) (x : A)
      → find_where t xs ≡ some x
      → find_where t (xs ++ ys) ≡ some x
  find_where-append t [] ys x e = absurd cc
  find_where-append t (y ∷ xs) ys x e = ground (arith, find_where-append t xs ys x)

  pub exists_where-last :
      (t : A → Bool) (xs : List A) (x : A) → t x ≡ true → exists_where t (xs ++ x ∷ []) ≡ true
  exists_where-last t [] x e = ground arith
  exists_where-last t (y ∷ xs) x e = ground (arith, exists_where-last t xs x)

  -- A selection that keeps the rows of a test.
  pub find_where-select :
      (t u : A → Bool)
      → ((x : A) → t x ≡ true → u x ≡ true)
      → (xs : List A) → find_where t (select_where u xs) ≡ find_where t xs
  find_where-select t u h [] = refl
  find_where-select t u h (x ∷ xs) = elim (Bool-cases (t x)) [
    | inl p ↦ rw (p, h x p) (rw p refl)
    | inr p ↦ elim (Bool-cases (u x)) [
      | inl q ↦ rw (p, q) (rw p (find_where-select t u h xs))
      | inr q ↦ rw (p, q) (find_where-select t u h xs)
    ]
  ]

  pub exists_where-select :
      (t u : A → Bool)
      → ((x : A) → t x ≡ true → u x ≡ true)
      → (xs : List A) → exists_where t (select_where u xs) ≡ exists_where t xs
  exists_where-select t u h [] = refl
  exists_where-select t u h (x ∷ xs) = elim (Bool-cases (t x)) [
    | inl p ↦ ground (arith, h x p)
    | inr p ↦ ground (arith, exists_where-select t u h xs)
  ]

  -- Where keys are unique, a row that fails a test has no row beside it with its key that passes it.
  pub alone-All :
      (key : A → Text) (gone : A → Bool) (xs : List A)
      → HasKeys key xs
      → All (λ r. gone r ≡ false → exists_where (λ x. key x =t= key r && gone x) xs ≡ false) xs
  alone-All key gone [] v = tt
  alone-All key gone (x ∷ xs) v = (
    (λ g. ground (arith, none_with_key key gone x xs v.0)),
    All-mono _ _ (λ y q g. ground (arith, =t=-sym (key x) (key y), q.0, q.1 g)) xs
        (All-both _ _ xs (exists_where-false_All (λ y. key y =t= key x) xs v.0)
          (alone-All key gone xs v.1)),
  )
    where
      none_with_key :
          (key : A → Text) (gone : A → Bool) (x : A) (ys : List A)
          → exists_where (λ y. key y =t= key x) ys ≡ false
          → exists_where (λ y. key y =t= key x && gone y) ys ≡ false
      none_with_key key gone x [] e = refl
      none_with_key key gone x (y ∷ ys) e = ground (arith, none_with_key key gone x ys)

  pub found_exists :
      (t : A → Bool) (xs : List A) (x : A) → find_where t xs ≡ some x → exists_where t xs ≡ true
  found_exists t [] x e = absurd cc
  found_exists t (y ∷ xs) x e = ground (arith, found_exists t xs x)

  -- A narrower test finds the same row, if that row passes it.
  pub find_where-narrow :
      (t u : A → Bool)
      → ((x : A) → u x ≡ true → t x ≡ true)
      → (xs : List A) (x : A) → find_where t xs ≡ some x
      → u x ≡ true
      → find_where u xs ≡ some x
  find_where-narrow t u h [] x e p = absurd cc
  find_where-narrow t u h (y ∷ xs) x e p = elim (Bool-cases (t y)) [
    | inl q ↦ ground arith
    | inr q ↦ elim (Bool-cases (u y)) [
      | inl r ↦ absurd (cc (h y r, q))
      | inr r ↦ rw r (find_where-narrow t u h xs x (rw q at e) p)
    ]
  ]
