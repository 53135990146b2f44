-- ===== src/Prelude/Results.antt =====
-- Rust's `Result<A, E>`, with `?` as the bind of a `do` block.
use mathlib.Core.Path.{◌≡◌, refl}
use mathlib.Core.Logic.{◌⊎◌, inl, inr}
use mathlib.Core.Bool.{Bool, true, false}
use mathlib.Core.Option.{Option, none, some}

pub data Result {ℓ} (E : Type 0) (A : Type ℓ) : Type ℓ where
  err : E → Result E A
  ok : A → Result E A

module _ {ℓ} {E : Type 0} {A : Type ℓ} where
  infixl 5 ◌>>=◌
  abbrev pub ◌>>=◌ {κ} : {B : Type κ} → Result E A → (A → Result E B) → Result E B
  err x >>= next = err x
  ok v >>= next = next v

  -- Which value a successful chain went on with.
  pub >>=-eq-ok {κ} :
      {B : Type κ} (r : Result E A) (next : A → Result E B) {w : B}
      → (r >>= next) ≡ ok w
      → (v : A) × (r ≡ ok v) × (next v ≡ ok w)
  >>=-eq-ok (err x) next went = cc
  >>=-eq-ok (ok v) next went = (v, refl, went)

  pub Result-cases : (r : Result E A) → ((v : A) × (r ≡ ok v)) ⊎ ((x : E) × (r ≡ err x))
  Result-cases (err x) = inr (x, refl)
  Result-cases (ok v) = inl (v, refl)

  -- `Option::ok_or`.
  abbrev pub ok_or : Option A → E → Result E A
  ok_or none x = err x
  ok_or (some v) x = ok v

infixl 5 ◌>>◌
abbrev pub ◌>>◌ {ℓ} : {E : Type 0} {A : Type ℓ} → Result E (Unit {0}) → Result E A → Result E A
check >> rest = check >>= λ _. rest

-- `if test { return Err(x) }`.
abbrev pub refuse_if : {E : Type 0} → Bool → E → Result E (Unit {0})
refuse_if false x = ok tt
refuse_if true x = err x

-- A check that was passed.
pub refuse_if-eq-ok :
    {E : Type 0} (test : Bool) (x : E) {u : Unit {0}} → refuse_if test x ≡ ok u → test ≡ false
refuse_if-eq-ok false x passed = refl
refuse_if-eq-ok true x passed = cc
