-- ===== src/Mcp/Replay.antt =====
-- An authorization code that was exchanged, presented again after any calls of the token store.
use marginalis.Prelude.{
  ℕ, ◌≡◌, refl, sym, ap, ◌∙◌, true, false, Bool-cases, Option-cases, inl, inr, List, none, some,
  arith, ok,
}
use marginalis.Text.{Text, ◌=t=◌}
use marginalis.Tables.{
  find_where, find_where-All, find_where-test, find_where-none, All-mono, find_where-exists,
}
use marginalis.Tables.Keys.{HasKeys}
use marginalis.Domain.Identity.{is_none}
use marginalis.Mcp.Store.{External, Code, Store, revoke_family}
use marginalis.Mcp.Exchange.{CodeExchange, Grant, bound_to, redeemable, replayed, exchange_code}
use marginalis.Mcp.Calls.{Call, run}
use marginalis.Mcp.Families.{IsRevoked, revoke_family-IsRevoked}
use marginalis.Mcp.Codes.{SpentRow, IsSpent, bound_to-hash, redeem-IsSpent}
use marginalis.Mcp.Spent.{run-IsSpent}

-- A successful exchange spends the code.
exchange_code-IsSpent :
    (env : External) (s : Store) (ex : CodeExchange) (now : ℕ) (s' : Store) (g : Grant)
    → HasKeys (λ c. c.code_hash) s.codes
    → exchange_code env s ex now ≡ ok (s', some g)
    → IsSpent env ex (env.hash_token ex.refresh_token) s'
unfolding exchange_code
exchange_code-IsSpent env s ex now s' g keys e =
    elim (Option-cases (find_where (redeemable env ex now) s.codes)) [
      | inl n ↦ absurd (ground (arith, n))
      | inr (c, n) ↦ redeem-IsSpent env s ex now c s' (some g) keys n (rw (n, exchange_code) at e)
    ]

-- No row of a spent code can be redeemed.
unredeemable :
    (env : External) (s : Store) (ex ex2 : CodeExchange) (family : Text) (now : ℕ)
    → IsSpent env ex family s
    → ex2.code ≡ ex.code
    → find_where (redeemable env ex2 now) s.codes ≡ none
unredeemable env s ex ex2 family now v same =
    find_where-none (redeemable env ex2 now) s.codes
      (All-mono (SpentRow (env.hash_token ex.code) family) _ row s.codes v.rows)
  where
    row : (c : Code) → SpentRow (env.hash_token ex.code) family c → redeemable env ex2 now c ≡ false
    row c h = elim (Bool-cases (bound_to env ex2 c)) [
      | inl b ↦
          let spent =
            h (ap (λ k. c.code_hash =t= env.hash_token k) (sym same) ∙ bound_to-hash env ex2 c b) in
          ground (arith, spent.0)
      | inr b ↦ ground arith
    ]

-- A code that was exchanged with success is never exchanged again: after any sequence of calls, an
-- exchange of the same code, whatever else it presents and at whatever time, returns no grant. No two
-- codes of the store may have the same hash.
pub code_redeemed_once :
    (env : External) (s : Store) (ex : CodeExchange) (now : ℕ) (s' : Store) (g : Grant)
    (cs : List Call) (ex2 : CodeExchange) (later : ℕ)
    → HasKeys (λ c. c.code_hash) s.codes
    → exchange_code env s ex now ≡ ok (s', some g)
    → ex2.code ≡ ex.code
    → (t : Store) × (exchange_code env (run env s' cs) ex2 later ≡ ok (t, none))
unfolding exchange_code
code_redeemed_once env s ex now s' g cs ex2 later keys e same =
    let spent =
      run-IsSpent env ex (env.hash_token ex.refresh_token) s' cs
        (exchange_code-IsSpent env s ex now s' g keys e) in
    rw
      (
        unredeemable env (run env s' cs) ex ex2 (env.hash_token ex.refresh_token) later spent same,
        exchange_code,
      )
      (_, refl)

-- The row that a replay finds names the family that the code brought.
replayed_family :
    (env : External) (s : Store) (ex : CodeExchange) (family : Text)
    → IsSpent env ex family s
    → (c : Code) × (find_where (replayed env ex) s.codes ≡ some c) × (c.token_family ≡ some family)
replayed_family env s ex family v =
    let (c, e) =
      find_where-exists (bound_to env ex) (replayed env ex) s.codes
        (All-mono (SpentRow (env.hash_token ex.code) family) _ row s.codes v.rows) v.stored in
    let test = find_where-test (replayed env ex) s.codes c e in
    let bound : bound_to env ex c ≡ true = ground arith in
    (
      c,
      e,
      (find_where-All (SpentRow (env.hash_token ex.code) family) (replayed env ex) s.codes c v.rows
          e (bound_to-hash env ex c bound)).1,
    )
  where
    row :
        (c : Code)
        → SpentRow (env.hash_token ex.code) family c
        → bound_to env ex c ≡ true
        → replayed env ex c ≡ true
    row c h b =
        let (spent, named) = h (bound_to-hash env ex c b) in ground (arith, spent, ap is_none named)

-- When the exchange that succeeded is presented again, after any sequence of calls and at any time,
-- it returns no grant, and then no access or refresh token of the family that the first exchange
-- founded is live. No two codes of the first store may have the same hash.
pub code_replay_revokes :
    (env : External) (s : Store) (ex : CodeExchange) (now : ℕ) (s' : Store) (g : Grant)
    (cs : List Call) (later : ℕ)
    → HasKeys (λ c. c.code_hash) s.codes
    → exchange_code env s ex now ≡ ok (s', some g)
    → (t : Store) × (exchange_code env (run env s' cs) ex later ≡ ok (t, none))
      × IsRevoked (env.hash_token ex.refresh_token) t
unfolding exchange_code
code_replay_revokes env s ex now s' g cs later keys e =
    let family = env.hash_token ex.refresh_token in
    let spent = run-IsSpent env ex family s' cs (exchange_code-IsSpent env s ex now s' g keys e) in
    let (c, found, named) = replayed_family env (run env s' cs) ex family spent in
    (
      revoke_family later family (run env s' cs),
      rw
          (
            unredeemable env (run env s' cs) ex ex family later spent refl,
            found,
            named,
            exchange_code,
          )
          refl,
      revoke_family-IsRevoked later family (run env s' cs),
    )
