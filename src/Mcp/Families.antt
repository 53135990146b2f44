-- ===== src/Mcp/Families.antt =====
-- Families of tokens: the tokens that one authorization brought, and their revocation.
use mathlib.Core.Path.{subst}
use marginalis.Prelude.{
  ℕ, ◌≡◌, refl, sym, ap, ◌∙◌, Bool, true, false, Bool-cases, inl, inr, List, [], ◌∷◌, ◌++◌, arith,
  All,
}
use marginalis.Text.{Text, ◌=t=◌}
use marginalis.Text.Equality.{=t=-eq}
use marginalis.Tables.{
  update_where, exists_where, update_where-All, All-trivial, All-snoc, exists_where-snoc,
  exists_where-update,
}
use marginalis.Mcp.Store.{
  AccessToken, RefreshToken, Store, refresh_has_hash, live_access_of, live_refresh_of,
  revoke_access, revoke_refresh, revoke_family,
}
use marginalis.Mcp.Tokens.{revoke_principal_client}

-- No access or refresh token of the family is live.
pub record IsRevoked (family : Text) (s : Store) : Type 0 where
  pub access : All (λ t. live_access_of family t ≡ false) s.access_tokens
  pub refresh : All (λ t. live_refresh_of family t ≡ false) s.refresh_tokens

-- The family is revoked, and the refresh token that founded it, whose hash is its name, is known.
pub record IsRetired (family : Text) (s : Store) : Type 0 where
  pub revoked : IsRevoked family s
  pub founded : exists_where (refresh_has_hash family) s.refresh_tokens ≡ true

-- Revoking a family leaves none of its tokens live.
pub revoke_family-IsRevoked :
    (now : ℕ) (family : Text) (s : Store) → IsRevoked family (revoke_family now family s)
unfolding revoke_family
revoke_family-IsRevoked now family s = record {
  access =
      update_where-All (λ _. Unit {0}) (λ t. live_access_of family t ≡ false)
        (live_access_of family) (revoke_access now) (λ t _ _. ground arith) (λ t _ h. h)
        s.access_tokens (All-trivial _ (λ _. tt) _);
  refresh =
      update_where-All (λ _. Unit {0}) (λ t. live_refresh_of family t ≡ false)
        (live_refresh_of family) (revoke_refresh now) (λ t _ _. ground arith) (λ t _ h. h)
        s.refresh_tokens (All-trivial _ (λ _. tt) _);
}

-- Updates that bring no token of the family to life and keep the hashes.
pub kept :
    (family : Text) (s s' : Store) (ta : AccessToken → Bool) (fa : AccessToken → AccessToken)
    (tr : RefreshToken → Bool) (fr : RefreshToken → RefreshToken)
    → ((t : AccessToken) → live_access_of family t ≡ false → live_access_of family (fa t) ≡ false)
    → ((t : RefreshToken)
        → live_refresh_of family t ≡ false
        → live_refresh_of family (fr t) ≡ false)
    → ((t : RefreshToken) → refresh_has_hash family (fr t) ≡ refresh_has_hash family t)
    → s'.access_tokens ≡ update_where ta fa s.access_tokens
    → s'.refresh_tokens ≡ update_where tr fr s.refresh_tokens
    → IsRetired family s
    → IsRetired family s'
kept family s s' ta fa tr fr da dr hash ea er v = record {
  revoked = record {
    access = subst (All (λ t. live_access_of family t ≡ false)) (sym ea) (
        update_where-All _ _ ta fa (λ t h _. da t h) (λ t h _. h) s.access_tokens v.revoked.access);
    refresh = subst (All (λ t. live_refresh_of family t ≡ false)) (sym er) (
        update_where-All _ _ tr fr (λ t h _. dr t h) (λ t h _. h) s.refresh_tokens
          v.revoked.refresh);
  };
  founded =
      ap (exists_where (refresh_has_hash family)) er
      ∙ exists_where-update tr (refresh_has_hash family) fr hash s.refresh_tokens
      ∙ v.founded;
}

pub revoke_family-IsRetired :
    (now : ℕ) (other family : Text) (s : Store)
    → IsRetired family s
    → IsRetired family (revoke_family now other s)
unfolding revoke_family
revoke_family-IsRetired now other family s v =
    kept family s (revoke_family now other s) (live_access_of other) (revoke_access now)
      (live_refresh_of other) (revoke_refresh now) (λ t h. ground arith) (λ t h. ground arith)
      (λ t. refl) refl refl v

pub revoke_principal_client-IsRetired :
    (principal : ℕ) (client : Text) (now : ℕ) (family : Text) (s : Store)
    → IsRetired family s
    → IsRetired family (revoke_principal_client principal client now s)
unfolding revoke_principal_client
revoke_principal_client-IsRetired principal client now family s v =
    kept family s (revoke_principal_client principal client now s) _ (revoke_access now) _
      (revoke_refresh now) (λ t h. ground arith) (λ t h. ground arith) (λ t. refl) refl refl v

-- New tokens that are not of the family, behind the old ones.
pub grown :
    (family : Text) (s s' : Store) (a : AccessToken) (r : RefreshToken) (tr : RefreshToken → Bool)
    (fr : RefreshToken → RefreshToken)
    → ((t : RefreshToken)
        → live_refresh_of family t ≡ false
        → live_refresh_of family (fr t) ≡ false)
    → ((t : RefreshToken) → refresh_has_hash family (fr t) ≡ refresh_has_hash family t)
    → (a.token_family =t= family) ≡ false
    → (r.token_family =t= family) ≡ false
    → s'.access_tokens ≡ s.access_tokens ++ a ∷ []
    → s'.refresh_tokens ≡ update_where tr fr s.refresh_tokens ++ r ∷ []
    → IsRetired family s
    → IsRetired family s'
grown family s s' a r tr fr dr hash oa or ea er v = record {
  revoked = record {
    access =
        subst (All (λ t. live_access_of family t ≡ false)) (sym ea)
          (All-snoc _ s.access_tokens a v.revoked.access (ground arith));
    refresh = subst (All (λ t. live_refresh_of family t ≡ false)) (sym er) (
        All-snoc _ (update_where tr fr s.refresh_tokens) r
          (update_where-All _ _ tr fr (λ t h _. dr t h) (λ t h _. h) s.refresh_tokens
            v.revoked.refresh)
          (ground arith));
  };
  founded =
      ap (exists_where (refresh_has_hash family)) er
      ∙ exists_where-snoc (refresh_has_hash family) (update_where tr fr s.refresh_tokens) r
          (exists_where-update tr (refresh_has_hash family) fr hash s.refresh_tokens ∙ v.founded);
}

-- A hash that no refresh token has is not the name of a retired family.
pub fresh_name :
    (family name : Text) (s : Store)
    → exists_where (refresh_has_hash name) s.refresh_tokens ≡ false
    → IsRetired family s
    → (name =t= family) ≡ false
fresh_name family name s e v = elim (Bool-cases (name =t= family)) [
  | inl h ↦ cc (
    ap (λ n. exists_where (refresh_has_hash n) s.refresh_tokens) (=t=-eq name family h),
    v.founded,
  )
  | inr h ↦ h
]

pub update_none {ℓ} : {A : Type ℓ} (xs : List A) → update_where (λ _. false) (λ x. x) xs ≡ xs
update_none [] = refl
update_none (x ∷ xs) = ap (◌∷◌ x) (update_none xs)
