-- ===== src/Mcp/Clients.antt =====
-- The bound on registered clients, and the scopes that an authorization gathers.
use marginalis.Prelude.{
  ℕ, ◌⊎◌, max, suc, ◌≡◌, ◌≤◌, ◌<◌, refl, ap, ◌∙◌, Bool, true, false, ◌||◌, ltb, Bool-cases, inl,
  inr, List, [], ◌∷◌, ◌++◌, arith, ok, >>=-eq-ok, if◌then◌else◌,
}
use marginalis.Text.{Text, ◌=t=◌}
use marginalis.Text.Equality.{=t=-eq, =t=-sym}
use marginalis.Tables.{count_where, insert_row, insert_row-ok}
use marginalis.Principals.{database}
use marginalis.Mcp.Store.{ClientRow, Store, dynamic}
use marginalis.Mcp.Registration.{register_client_bounded, same_method, contains_text, merge_scopes}

abbrev pub dynamic_clients : Store → ℕ
dynamic_clients s = count_where (λ c. same_method c.registration_method dynamic) s.clients

count_where-snoc {ℓ} :
    {A : Type ℓ} (t : A → Bool) (xs : List A) (x : A)
    → t x ≡ true
    → count_where t (xs ++ x ∷ []) ≡ suc (count_where t xs)
count_where-snoc t [] x h = rw h refl
count_where-snoc t (y ∷ xs) x h = ground (arith, count_where-snoc t xs x h)

-- A registration that returns has either stored one more dynamic client, where there were fewer than
-- the maximum, or has left the store as it was, where the maximum was reached. The number of dynamic
-- clients exceeds the maximum at most where it did before.
pub register_client_bounded_lem :
    (s : Store) (id name : Text) (uris : List Text) (now maximum : ℕ) (s' : Store) (stored : Bool)
    → register_client_bounded s id name uris now maximum ≡ ok (s', stored)
    → (((stored ≡ true)
          × (dynamic_clients s' ≡ suc (dynamic_clients s))
          × (dynamic_clients s < maximum))
        ⊎ ((stored ≡ false) × (s' ≡ s) × (maximum ≤ dynamic_clients s)))
      × (dynamic_clients s' ≤ max (dynamic_clients s) maximum)
unfolding register_client_bounded
register_client_bounded_lem s id name uris now maximum s' stored e =
    elim (Bool-cases (ltb (dynamic_clients s) maximum)) [
      | inl h ↦
          let (clients, i, e1) =
            >>=-eq-ok (insert_row database (λ c. c.client_id =t= id) row s.clients) _
              (rw (h, register_client_bounded) at e) in
          let (new, _) = insert_row-ok database _ row s.clients i in
          let same : s'.clients ≡ s.clients ++ row ∷ [] = ground arith in
          let counts : dynamic_clients s' ≡ suc (dynamic_clients s) =
            ap (count_where (λ c. same_method c.registration_method dynamic)) same
            ∙ count_where-snoc (λ c. same_method c.registration_method dynamic) s.clients row
                refl in
          (inl (stores h, counts, ground arith), ground (arith, counts))
      | inr h ↦
          let (same, none_stored) = refused h in
          (inr (none_stored, same, ground arith), ground (arith, ap dynamic_clients same))
    ]
  where
    row : ClientRow
    row = record {
      client_id = id;
      display_name = name;
      redirect_uris = uris;
      registration_method = dynamic;
      registered_at = now;
    }

    stores : ltb (dynamic_clients s) maximum ≡ true → stored ≡ true
    stores h = unfold register_client_bounded in ground arith

    refused : ltb (dynamic_clients s) maximum ≡ false → (s' ≡ s) × (stored ≡ false)
    refused h = unfold register_client_bounded in ground arith

-- No text stands in the list twice.
abbrev pub AreDistinct : List Text → Type 0
AreDistinct [] = Unit
AreDistinct (x ∷ xs) = (contains_text xs x ≡ false) × AreDistinct xs

contains_text-snoc :
    (xs : List Text) (x y : Text) → contains_text (xs ++ x ∷ []) y ≡ (contains_text xs y || x =t= y)
contains_text-snoc [] x y = ground arith
contains_text-snoc (z ∷ xs) x y = ground (arith, contains_text-snoc xs x y)

snoc-AreDistinct :
    (xs : List Text) (x : Text)
    → AreDistinct xs
    → contains_text xs x ≡ false
    → AreDistinct (xs ++ x ∷ [])
snoc-AreDistinct [] x d h = (refl, tt)
snoc-AreDistinct (y ∷ xs) x d h = (
  contains_text-snoc xs x y ∙ ground (arith, d.0, =t=-sym x y),
  snoc-AreDistinct xs x d.1 (ground arith),
)

push_scope_contains :
    (granted : List Text) (x y : Text)
    → contains_text (if contains_text granted x then granted else granted ++ x ∷ []) y
      ≡ (contains_text granted y || x =t= y)
push_scope_contains granted x y = elim (Bool-cases (contains_text granted x)) [
  | inl h ↦ elim (Bool-cases (x =t= y)) [
    | inl q ↦ ground (arith, ap (contains_text granted) (=t=-eq x y q))
    | inr q ↦ ground arith
  ]
  | inr h ↦ rw h (contains_text-snoc granted x y)
]

merge_scopes_among :
    (granted new : List Text) (y : Text)
    → contains_text (merge_scopes granted new) y ≡ (contains_text granted y || contains_text new y)
unfolding merge_scopes
merge_scopes_among granted [] y = ground arith
merge_scopes_among granted (x ∷ xs) y = ground (
  arith,
  merge_scopes_among (if contains_text granted x then granted else granted ++ x ∷ []) xs y,
  push_scope_contains granted x y,
)

merge_scopes-AreDistinct :
    (granted new : List Text) → AreDistinct granted → AreDistinct (merge_scopes granted new)
unfolding merge_scopes
merge_scopes-AreDistinct granted [] d = d
merge_scopes-AreDistinct granted (x ∷ xs) d =
    merge_scopes-AreDistinct (if contains_text granted x then granted else granted ++ x ∷ []) xs
      pushed
  where
    pushed : AreDistinct (if contains_text granted x then granted else granted ++ x ∷ [])
    pushed = elim (Bool-cases (contains_text granted x)) [
      | inl h ↦ rw h d
      | inr h ↦ rw h (snoc-AreDistinct granted x d h)
    ]

-- The scopes of an authorization, merged with those of a new grant, are the scopes of either: a scope
-- is among them just when it was granted before or is granted now, and none is repeated, if none was
-- repeated before.
pub merge_scopes_lem :
    (granted new : List Text) (y : Text)
    → AreDistinct granted
    → (contains_text (merge_scopes granted new) y
        ≡ (contains_text granted y || contains_text new y))
      × AreDistinct (merge_scopes granted new)
merge_scopes_lem granted new y d =
    (merge_scopes_among granted new y, merge_scopes-AreDistinct granted new d)
