-- ===== src/Mcp/Calls.antt =====
-- Histories of calls of the token store. A call that fails is rolled back.
use marginalis.Prelude.{ℕ, List, [], ◌∷◌, Result, ok, err, ◌≡◌, refl}
use marginalis.Text.{Text}
use marginalis.Principals.{StoreError}
use marginalis.Mcp.Store.{External, ClientRow, Store}
use marginalis.Mcp.Exchange.{CodeExchange, Grant, exchange_code}
use marginalis.Mcp.Registration.{register_client_bounded, issue_code}
use marginalis.Mcp.Tokens.{Rotation, authenticate, rotate, revoke_client_tokens, revoke_token}

-- A call with its arguments; the time is the last, and the ids of new rows come with `issues`.
pub data Call : Type 0 where
  registers : Text → Text → List Text → ℕ → ℕ → Call
  issues : Text → ClientRow → Grant → Text → ℕ → ℕ → ℕ → ℕ → Call
  exchanges : CodeExchange → ℕ → Call
  authenticates : Text → Text → ℕ → Call
  rotates : Rotation → ℕ → Call
  revokes_client : Text → Text → Text → ℕ → Call
  revokes_token : Text → Text → ℕ → Call

abbrev pub after : {A : Type 0} → Store → Result StoreError (Store × A) → Store
after s (err x) = s
after s (ok (s', a)) = s'

abbrev pub after_update : Store → Result StoreError Store → Store
after_update s (err x) = s
after_update s (ok s') = s'

unfoldable pub step : External → Store → Call → Store
step env s (registers id name uris now maximum) =
    after s (register_client_bounded s id name uris now maximum)
step env s (issues code client grant challenge expires now principal id) =
    after_update s (issue_code env s code client grant challenge expires now principal id)
step env s (exchanges ex now) = after s (exchange_code env s ex now)
step env s (authenticates token resource now) = after s (authenticate env s token resource now)
step env s (rotates r now) = after s (rotate env s r now)
step env s (revokes_client issuer subject client now) =
    after_update s (revoke_client_tokens env s issuer subject client now)
step env s (revokes_token token client now) = revoke_token env s token client now

unfoldable pub run : External → Store → List Call → Store
run env s [] = s
run env s (c ∷ cs) = run env (step env s c) cs

-- What holds before a call and after each success of it holds after it.
pub after-cases {ℓ} :
    {A : Type 0} (P : Store → Type ℓ) (s : Store) (r : Result StoreError (Store × A))
    → P s
    → ((s' : Store) (a : A) → r ≡ ok (s', a) → P s')
    → P (after s r)
after-cases P s (err x) p q = p
after-cases P s (ok (s', a)) p q = q s' a refl

pub after_update-cases {ℓ} :
    (P : Store → Type ℓ) (s : Store) (r : Result StoreError Store)
    → P s
    → ((s' : Store) → r ≡ ok s' → P s')
    → P (after_update s r)
after_update-cases P s (err x) p q = p
after_update-cases P s (ok s') p q = q s' refl
