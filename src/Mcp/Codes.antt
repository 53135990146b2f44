-- ===== src/Mcp/Codes.antt =====
-- The rows of an authorization code that was redeemed, after `exchange_mcp_authorization_code`.
use mathlib.Core.Path.{subst}
use marginalis.Prelude.{
  ℕ, ◌≡◌, refl, sym, ap, ◌∙◌, Bool, true, false, Bool-cases, inl, inr, List, [], ◌∷◌, Option, some,
  arith, All, ok,
}
use marginalis.Text.{Text, ◌=t=◌}
use marginalis.Text.Equality.{=t=-eq}
use marginalis.Tables.{
  find_where, update_where, exists_where, find_where-test, update_where-All, exists_where-update,
}
use marginalis.Tables.Keys.{HasKeys, find_where-HasKeys}
use marginalis.Domain.Identity.{is_none}
use marginalis.Mcp.Store.{External, Code, Store}
use marginalis.Mcp.Exchange.{CodeExchange, Grant, bound_to, redeemable, redeem, consume, set_family}
use marginalis.Mcp.Outcomes.{redeem-Redeemed}

-- A row with this hash is consumed and names this family.
abbrev pub SpentRow : Text → Text → Code → Type 0
SpentRow hash family c =
    (c.code_hash =t= hash) ≡ true → (is_none c.consumed_at ≡ false) × (c.token_family ≡ some family)

-- The rows of the code are spent, and one of them fits the request.
pub record IsSpent (env : External) (ex : CodeExchange) (family : Text) (s : Store) : Type 0 where
  pub rows : All (SpentRow (env.hash_token ex.code) family) s.codes
  pub stored : exists_where (bound_to env ex) s.codes ≡ true

pub bound_to-hash :
    (env : External) (ex : CodeExchange) (c : Code)
    → bound_to env ex c ≡ true
    → (c.code_hash =t= env.hash_token ex.code) ≡ true
unfolding bound_to
bound_to-hash env ex c e = ground arith

-- Marking a code leaves what binds it to a request.
pub bound_to-consume :
    (env : External) (ex : CodeExchange) (now : ℕ) (c : Code)
    → bound_to env ex (consume now c) ≡ bound_to env ex c
unfolding bound_to
bound_to-consume env ex now c = refl

pub bound_to-set_family :
    (env : External) (ex : CodeExchange) (family : Text) (c : Code)
    → bound_to env ex (set_family family c) ≡ bound_to env ex c
unfolding bound_to
bound_to-set_family env ex family c = refl

exists_where-found {ℓ} :
    {A : Type ℓ} (t u : A → Bool) (xs : List A) (x : A)
    → find_where t xs ≡ some x
    → u x ≡ true
    → exists_where u xs ≡ true
exists_where-found t u [] x e h = cc
exists_where-found t u (y ∷ xs) x e h = elim (Bool-cases (t y)) [
  | inl p ↦ ground arith
  | inr p ↦ ground (arith, exists_where-found t u xs x (rw p at e) h)
]

-- Redeeming a code spends it.
pub redeem-IsSpent :
    (env : External) (s : Store) (ex : CodeExchange) (now : ℕ) (c : Code) (s' : Store)
    (g : Option Grant)
    → HasKeys (λ x. x.code_hash) s.codes
    → find_where (redeemable env ex now) s.codes ≡ some c
    → redeem env s ex now c ≡ ok (s', g)
    → IsSpent env ex (env.hash_token ex.refresh_token) s'
redeem-IsSpent env s ex now c s' g keys found e =
    let o = redeem-Redeemed env s ex now c s' g e in
    let hash = env.hash_token ex.code in
    let family = env.hash_token ex.refresh_token in
    let test = find_where-test (redeemable env ex now) s.codes c found in
    let bound : bound_to env ex c ≡ true = ground arith in
    let named = =t=-eq c.code_hash hash (bound_to-hash env ex c bound) in
    let all_redeemable =
      find_where-HasKeys (λ x. x.code_hash) (λ x. redeemable env ex now x ≡ true)
        (redeemable env ex now) s.codes c keys found test in
    let consumed =
      update_where-All (λ x. (x.code_hash =t= c.code_hash) ≡ true → redeemable env ex now x ≡ true)
        (λ x. (x.code_hash =t= hash) ≡ true → is_none x.consumed_at ≡ false) (redeemable env ex now)
        (consume now) (λ x h t q. refl)
        (λ x h t q. absurd (clash (h (subst (λ k. (x.code_hash =t= k) ≡ true) (sym named) q)) t))
        s.codes all_redeemable in
    record {
      rows = subst (All (SpentRow hash family)) (sym o.codes) (
          update_where-All (λ x. (x.code_hash =t= hash) ≡ true → is_none x.consumed_at ≡ false)
            (SpentRow hash family) (λ x. x.code_hash =t= hash) (set_family family)
            (λ x h t q. (h q, refl)) (λ x h t q. absurd (clash q t))
            (update_where (redeemable env ex now) (consume now) s.codes) consumed);
      stored =
          ap (exists_where (bound_to env ex)) o.codes
          ∙ exists_where-update (λ x. x.code_hash =t= hash) (bound_to env ex) (set_family family)
              (bound_to-set_family env ex family)
              (update_where (redeemable env ex now) (consume now) s.codes)
          ∙ exists_where-update (redeemable env ex now) (bound_to env ex) (consume now)
              (bound_to-consume env ex now) s.codes
          ∙ exists_where-found (redeemable env ex now) (bound_to env ex) s.codes c found bound;
    }
  where
    clash : {b : Bool} → b ≡ true → b ≡ false → ⊥
    clash p q = cc
