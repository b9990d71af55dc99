-- ===== src/Policy/Signers/Removable.antt =====
-- The passkey that a recovery removes (`selectRemovableSigner` of
-- packages/frontend/src/lib/policyChainFetch.ts).
use nido.Base.{
  ℕ, zero, suc, ◌+◌, List, [], ◌∷◌, Option, none, some, ◌≡◌, ◌≢◌, refl, ap, get_elem?, arith,
}
use nido.Base.Decimal.{Text}
use nido.ZkRecovery.Field.{Bytes}
use nido.Policy.{ChainSigner, delegated, external}
use nido.Policy.Signers.{removable, externals_from, select_from, select_removable_signer}

unfoldable pub key_of : ChainSigner → Option Bytes
key_of (delegated address) = none
key_of (external verifier public_key) = some public_key

-- The key at a place of the signers, where a passkey stands there.
unfoldable pub key_at : List ChainSigner → ℕ → Option Bytes
key_at [] i = none
key_at (signer ∷ signers) zero = key_of signer
key_at (signer ∷ signers) (suc i) = key_at signers i

-- The only passkey among the signers, and its place.
pub record OnlyPasskey (signers : List ChainSigner) (place : ℕ) (public_key : Bytes) : Type 0 where
  pub at_place : key_at signers place ≡ some public_key
  pub others : (i : ℕ) → i ≢ place → key_at signers i ≡ none

externals-none :
    (ids : List ℕ) (i : ℕ) (signers : List ChainSigner)
    → externals_from ids i signers ≡ []
    → (j : ℕ) → key_at signers j ≡ none
unfolding externals_from key_at key_of
externals-none ids i [] e j = refl
externals-none ids i (external verifier public_key ∷ signers) e j = cc
externals-none ids i (delegated address ∷ signers) e zero = refl
externals-none ids i (delegated address ∷ signers) e (suc j) =
    externals-none ids (suc i) signers e j

others-here :
    (signer : ChainSigner) (signers : List ChainSigner)
    → ((j : ℕ) → key_at signers j ≡ none)
    → (i : ℕ) → i ≢ 0
    → key_at (signer ∷ signers) i ≡ none
unfolding key_at
others-here signer signers h zero n = absurd (n refl)
others-here signer signers h (suc i) n = h i

others-later :
    (address : Text) (signers : List ChainSigner) (place : ℕ)
    → ((j : ℕ) → j ≢ place → key_at signers j ≡ none)
    → (i : ℕ) → i ≢ suc place
    → key_at (delegated address ∷ signers) i ≡ none
unfolding key_at key_of
others-later address signers place h zero n = refl
others-later address signers place h (suc i) n = h i (λ e. n (ap suc e))

only_external :
    (ids : List ℕ) (start : ℕ) (signers : List ChainSigner) (id : Option ℕ) (public_key : Bytes)
    → externals_from ids start signers ≡ (id, public_key) ∷ []
    → (place : ℕ) × (get_elem? ids (start + place) ≡ id) × OnlyPasskey signers place public_key
unfolding externals_from key_at key_of
only_external ids start [] id public_key e = cc
only_external ids start (external verifier key ∷ signers) id public_key e =
    let here : start + 0 ≡ start = omega arith in
    let key_same : key ≡ public_key = cc in
    let id_same : get_elem? ids start ≡ id = cc in
    let rest : externals_from ids (suc start) signers ≡ [] = cc in
    (
      0,
      rw here id_same,
      record {
        at_place = rw key_same refl;
        others =
            others-here (external verifier key) signers
              (externals-none ids (suc start) signers rest);
      },
    )
only_external ids start (delegated address ∷ signers) id public_key e =
    let (place, stored, only) = only_external ids (suc start) signers id public_key e in
    let moved : start + suc place ≡ suc start + place = omega arith in
    (
      suc place,
      rw moved stored,
      record { at_place = only.at_place; others = others-later address signers place only.others },
    )

select-one :
    (externals : List (Option ℕ × Bytes)) (signer_id : ℕ) (public_key : Bytes)
    → select_from externals ≡ removable signer_id public_key
    → externals ≡ (some signer_id, public_key) ∷ []
unfolding select_from
select-one [] signer_id public_key e = cc
select-one ((none, key) ∷ []) signer_id public_key e = cc
select-one ((some id, key) ∷ []) signer_id public_key e = cc
select-one (x ∷ y ∷ externals) signer_id public_key e = cc

-- When the recovery removes a signer, it is the only passkey of the rule, the key is that passkey's,
-- and the id is the one that the chain holds at the passkey's place.
pub select_removable_signer-only :
    (signers : List ChainSigner) (signer_ids : List ℕ) (signer_id : ℕ) (public_key : Bytes)
    → select_removable_signer signers signer_ids ≡ removable signer_id public_key
    → (place : ℕ) × (get_elem? signer_ids place ≡ some signer_id)
      × OnlyPasskey signers place public_key
unfolding select_removable_signer
select_removable_signer-only signers signer_ids signer_id public_key e =
    let (place, stored, only) =
      only_external signer_ids 0 signers (some signer_id) public_key
        (select-one (externals_from signer_ids 0 signers) signer_id public_key e) in
    let start : place ≡ 0 + place = omega arith in (place, rw start stored, only)
