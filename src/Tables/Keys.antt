-- ===== src/Tables/Keys.antt =====
-- Primary keys: no two rows of a table have the same key.
use mathlib.Core.Path.{subst}
use marginalis.Prelude.{
  ◌≡◌, refl, sym, ap, ◌∙◌, Bool, true, false, Bool-cases, inl, inr, List, [], ◌∷◌, ◌++◌, some,
  arith, All, if◌then◌else◌,
}
use marginalis.Text.{Text, ◌=t=◌}
use marginalis.Text.Equality.{=t=-eq, =t=-sym}
use marginalis.Tables.{
  find_where, update_where, delete_where, exists_where, exists_where-false_All, find_where-All,
  All-mono, exists_where_mono,
}

module _ {ℓ} {A : Type ℓ} (key : A → Text) where
  abbrev pub HasKeys : List A → Type 0
  HasKeys [] = Unit
  HasKeys (x ∷ xs) = (exists_where (λ y. key y =t= key x) xs ≡ false) × HasKeys xs

  update_exists :
      (k : Text) (t : A → Bool) (f : A → A)
      → ((x : A) → key (f x) ≡ key x)
      → (xs : List A)
      → exists_where (λ y. key y =t= k) (update_where t f xs) ≡ exists_where (λ y. key y =t= k) xs
  update_exists k t f h [] = refl
  update_exists k t f h (x ∷ xs) = ground (arith, h x, update_exists k t f h xs)

  head_key :
      (t : A → Bool) (f : A → A)
      → ((x : A) → key (f x) ≡ key x)
      → (x : A) → key (if t x then f x else x) ≡ key x
  head_key t f h x = elim (Bool-cases (t x)) [ inl e ↦ rw e (h x) | inr e ↦ rw e refl ]

  -- An update that leaves the keys alone.
  pub update_where-HasKeys :
      (t : A → Bool) (f : A → A)
      → ((x : A) → key (f x) ≡ key x)
      → (xs : List A) → HasKeys xs
      → HasKeys (update_where t f xs)
  update_where-HasKeys t f h [] v = tt
  update_where-HasKeys t f h (x ∷ xs) v = (
    ap (λ k. exists_where (λ y. key y =t= k) (update_where t f xs)) (head_key t f h x)
        ∙ update_exists (key x) t f h xs
        ∙ v.0,
    update_where-HasKeys t f h xs v.1,
  )

  delete_exists :
      (k : Text) (t : A → Bool) (xs : List A)
      → exists_where (λ y. key y =t= k) xs ≡ false
      → exists_where (λ y. key y =t= k) (delete_where t xs) ≡ false
  delete_exists k t [] e = refl
  delete_exists k t (x ∷ xs) e = ground (arith, delete_exists k t xs)

  pub delete_where-HasKeys : (t : A → Bool) (xs : List A) → HasKeys xs → HasKeys (delete_where t xs)
  delete_where-HasKeys t [] v = tt
  delete_where-HasKeys t (x ∷ xs) v = elim (Bool-cases (t x)) [
    | inl h ↦ rw h (delete_where-HasKeys t xs v.1)
    | inr h ↦ rw h (delete_exists (key x) t xs v.0, delete_where-HasKeys t xs v.1)
  ]

  snoc_exists :
      (k : Text) (xs : List A) (x : A)
      → exists_where (λ y. key y =t= k) xs ≡ false
      → (key x =t= k) ≡ false
      → exists_where (λ y. key y =t= k) (xs ++ x ∷ []) ≡ false
  snoc_exists k [] x e d = ground arith
  snoc_exists k (y ∷ xs) x e d = ground (arith, snoc_exists k xs x)

  -- A row whose key is new.
  pub snoc-HasKeys :
      (xs : List A) (x : A)
      → HasKeys xs
      → exists_where (λ y. key y =t= key x) xs ≡ false
      → HasKeys (xs ++ x ∷ [])
  snoc-HasKeys [] x v e = (refl, tt)
  snoc-HasKeys (y ∷ xs) x v e = (
    snoc_exists (key y) xs x v.0 (=t=-sym (key x) (key y) ∙ or_false.0),
    snoc-HasKeys xs x v.1 or_false.1,
  )
    where
      or_false : ((key y =t= key x) ≡ false) × (exists_where (λ z. key z =t= key x) xs ≡ false)
      or_false = ground arith

  -- Every row with the key of a row that is found is that row.
  pub find_where-HasKeys {κ} :
      (P : A → Type κ) (t : A → Bool) (xs : List A) (x : A)
      → HasKeys xs
      → find_where t xs ≡ some x
      → P x
      → All (λ y. (key y =t= key x) ≡ true → P y) xs
  find_where-HasKeys P t [] x v e p = tt
  find_where-HasKeys P t (y ∷ xs) x v e p = elim (Bool-cases (t y)) [
    | inl h ↦
        let same : y ≡ x = ground arith in
        subst (λ z. All (λ w. (key w =t= key z) ≡ true → P w) (y ∷ xs)) same
          (
            (λ _. subst P (sym same) p),
            All-mono (λ w. (key w =t= key y) ≡ false) (λ w. (key w =t= key y) ≡ true → P w)
                (λ w d q. cc) xs (exists_where-false_All _ xs v.0),
          )
    | inr h ↦
        let found = rw h at e in
        let other =
          find_where-All (λ w. (key w =t= key y) ≡ false) t xs x (exists_where-false_All _ xs v.0)
            found in
        ((λ q. cc (=t=-sym (key y) (key x))), find_where-HasKeys P t xs x v.1 found p)
  ]

  pub update_where-none :
      (t : A → Bool) (f : A → A) (xs : List A)
      → All (λ x. t x ≡ false) xs
      → update_where t f xs ≡ xs
  update_where-none t f [] a = refl
  update_where-none t f (x ∷ xs) a = rw (a.0, update_where-none t f xs a.1) refl

  -- A test that only rows with one key can pass finds at most the row of that key, and an update under
  -- the test replaces that row.
  pub find_where-key :
      (k : Text) (t : A → Bool)
      → ((x : A) → t x ≡ true → (key x =t= k) ≡ true)
      → (xs : List A) → HasKeys xs
      → exists_where t xs ≡ true
      → (x : A) × (find_where (λ y. key y =t= k) xs ≡ some x)
        × (t x ≡ true)
        × ((f : A → A) → update_where t f xs ≡ update_where (λ y. key y =t= k) (λ _. f x) xs)
  find_where-key k t h [] v e = absurd cc
  find_where-key k t h (x ∷ xs) v e = elim (Bool-cases (t x)) [
    | inl p ↦
        let same = =t=-eq (key x) k (h x p) in
        let others : All (λ y. (key y =t= k) ≡ false) xs =
          exists_where-false_All _ xs
            (subst (λ q. exists_where (λ y. key y =t= q) xs ≡ false) same v.0) in
        let missed : All (λ y. t y ≡ false) xs =
          All-mono (λ y. (key y =t= k) ≡ false) (λ y. t y ≡ false) (λ y n. missed_test t k h y n) xs
            others in
        (
          x,
          rw (h x p) refl,
          p,
          (λ f.
              rw (p, h x p)
                (ap (◌∷◌ (f x))
                  (update_where-none t f xs missed ∙ sym (update_where-none _ _ xs others)))),
        )
    | inr p ↦
        let found : exists_where t xs ≡ true = rw p at e in
        let (y, e1, e2, e3) = find_where-key k t h xs v.1 found in
        let apart = head_apart t k h x xs v.0 found in
        (y, rw apart e1, e2, (λ f. rw (p, apart) (ap (◌∷◌ x) (e3 f))))
  ]
    where
      missed_test :
          (t : A → Bool) (k : Text)
          → ((x : A) → t x ≡ true → (key x =t= k) ≡ true)
          → (y : A) → (key y =t= k) ≡ false
          → t y ≡ false
      missed_test t k h y n = elim (Bool-cases (t y)) [ inl p ↦ absurd (cc (h y p)) | inr p ↦ p ]

      head_apart :
          (t : A → Bool) (k : Text)
          → ((x : A) → t x ≡ true → (key x =t= k) ≡ true)
          → (x : A) (xs : List A) → exists_where (λ y. key y =t= key x) xs ≡ false
          → exists_where t xs ≡ true
          → (key x =t= k) ≡ false
      head_apart t k h x xs v e = elim (Bool-cases (key x =t= k)) [
        | inl q ↦
            let there = exists_where_mono t (λ y. key y =t= k) xs h e in
            let again =
              subst (λ q. exists_where (λ y. key y =t= q) xs ≡ true) (sym (=t=-eq (key x) k q))
                there in
            absurd (cc (v, again))
        | inr q ↦ q
      ]

  pub find_where-replaced :
      (k : Text) (new : A)
      → (key new =t= k) ≡ true
      → (xs : List A) (x : A) → find_where (λ y. key y =t= k) xs ≡ some x
      → find_where (λ y. key y =t= k) (update_where (λ y. key y =t= k) (λ _. new) xs) ≡ some new
  find_where-replaced k new n [] x e = absurd cc
  find_where-replaced k new n (y ∷ xs) x e = elim (Bool-cases (key y =t= k)) [
    | inl p ↦ rw (p, n) refl
    | inr p ↦ rw (p, p) (find_where-replaced k new n xs x (rw p at e))
  ]

  -- The row of a key replaced by one with the same key.
  pub replace_exists :
      (k : Text) (new : A)
      → key new ≡ k
      → (i : Text) (xs : List A)
      → exists_where (λ y. key y =t= i) (update_where (λ y. key y =t= k) (λ _. new) xs)
        ≡ exists_where (λ y. key y =t= i) xs
  replace_exists k new n i [] = refl
  replace_exists k new n i (x ∷ xs) = elim (Bool-cases (key x =t= k)) [
    | inl p ↦
        let same : key new ≡ key x = n ∙ sym (=t=-eq (key x) k p) in
        rw (p, same, replace_exists k new n i xs) refl
    | inr p ↦ rw (p, replace_exists k new n i xs) refl
  ]

  pub replace-HasKeys :
      (k : Text) (new : A)
      → key new ≡ k
      → (xs : List A) → HasKeys xs
      → HasKeys (update_where (λ y. key y =t= k) (λ _. new) xs)
  replace-HasKeys k new n [] v = tt
  replace-HasKeys k new n (x ∷ xs) v = elim (Bool-cases (key x =t= k)) [
    | inl p ↦
        let same : key new ≡ key x = n ∙ sym (=t=-eq (key x) k p) in
        rw (p, same) (replace_exists k new n (key x) xs ∙ v.0, replace-HasKeys k new n xs v.1)
    | inr p ↦ rw p (replace_exists k new n (key x) xs ∙ v.0, replace-HasKeys k new n xs v.1)
  ]
