-- ===== src/Sharing/Clean.antt =====
-- What every snapshot of shared accounts satisfies
-- (packages/frontend/src/lib/nidoSharedStorage.ts).
use nido.Base.{
  List, [], ◌∷◌, Option, none, some, true, false, ◌≡◌, All, inl, inr, Option-cases, Bool-cases,
}
use nido.Base.Decimal.{Text}
use nido.Base.Texts.{has}
use nido.Accounts.{PendingAccount}
use nido.Claiming.{is_contract_id}
use nido.Sharing.{
  RawSnapshot, NidoAccountSnapshot, pending_ids, normalize_contract_id, unique_from,
  unique_contract_ids, merge_pending, merged_snapshot,
}

-- None of the ids is in `seen`, and none is there twice.
unfoldable pub IsFresh : List Text → List Text → Type 0
IsFresh seen [] = Unit
IsFresh seen (id ∷ ids) = (has seen id ≡ false) × IsFresh (id ∷ seen) ids

IsFresh-unique_from :
    (upper : Text → Text) (seen : List Text) (values : List (Option Text))
    → IsFresh seen (unique_from upper seen values)
unfolding IsFresh unique_from
IsFresh-unique_from upper seen [] = tt
IsFresh-unique_from upper seen (value ∷ values) =
    elim (Option-cases (normalize_contract_id upper value)) [
      | inl e ↦ rw (unique_from, e) (IsFresh-unique_from upper seen values)
      | inr (id, e) ↦ elim (Bool-cases (has seen id)) [
        | inl old ↦ rw (unique_from, e, old) (IsFresh-unique_from upper seen values)
        | inr new ↦ rw (unique_from, e, new) (new, IsFresh-unique_from upper (id ∷ seen) values)
      ]
    ]

normalize_contract_id-valid :
    (upper : Text → Text) (value : Option Text) (id : Text)
    → normalize_contract_id upper value ≡ some id
    → is_contract_id id ≡ true
unfolding normalize_contract_id
normalize_contract_id-valid upper none id e = cc
normalize_contract_id-valid upper (some value) id e =
    elim (Bool-cases (is_contract_id (upper value))) [
      | inl valid ↦
          let same : upper value ≡ id =
            let e' : some (upper value) ≡ some id = rw (normalize_contract_id, valid) at e in cc in
          rw⁻¹ same valid
      | inr wrong ↦
          absurd (let clash : none ≡ some id = rw (normalize_contract_id, wrong) at e in cc)
    ]

unique_from-valid :
    (upper : Text → Text) (seen : List Text) (values : List (Option Text))
    → All (λ id. is_contract_id id ≡ true) (unique_from upper seen values)
unfolding unique_from
unique_from-valid upper seen [] = tt
unique_from-valid upper seen (value ∷ values) =
    elim (Option-cases (normalize_contract_id upper value)) [
      | inl e ↦ rw (unique_from, e) (unique_from-valid upper seen values)
      | inr (id, e) ↦ elim (Bool-cases (has seen id)) [
        | inl old ↦ rw (unique_from, e, old) (unique_from-valid upper seen values)
        | inr new ↦
            rw (unique_from, e, new)
              (
                normalize_contract_id-valid upper value id e,
                unique_from-valid upper (id ∷ seen) values,
              )
      ]
    ]

IsFresh-merge_pending :
    (seen : List Text) (pending : List PendingAccount)
    → IsFresh seen (pending_ids (merge_pending seen pending))
unfolding IsFresh merge_pending
IsFresh-merge_pending seen [] = tt
IsFresh-merge_pending seen (p ∷ pending) = elim (Bool-cases (has seen p.contract_id)) [
  | inl old ↦ rw (merge_pending, old) (IsFresh-merge_pending seen pending)
  | inr new ↦ rw (merge_pending, new) (new, IsFresh-merge_pending (p.contract_id ∷ seen) pending)
]

-- A snapshot of distinct contract ids, whose pending accounts are distinct and not active.
pub record IsClean (snapshot : NidoAccountSnapshot) : Type 0 where
  pub valid : All (λ id. is_contract_id id ≡ true) snapshot.accounts
  pub distinct : IsFresh [] snapshot.accounts
  pub pending_fresh : IsFresh snapshot.accounts (pending_ids snapshot.pending)

-- Whatever another origin sends, and whatever is stored, the merged snapshot has distinct contract ids
-- as its accounts, and pending accounts that are distinct and not among them.
pub merged_snapshot-IsClean :
    (upper : Text → Text) (before : NidoAccountSnapshot) (incoming : RawSnapshot)
    → IsClean (merged_snapshot upper before incoming)
unfolding merged_snapshot unique_contract_ids
merged_snapshot-IsClean upper before incoming =
    let merged = merged_snapshot upper before incoming in
    record {
      valid = unique_from-valid upper [] _;
      distinct = IsFresh-unique_from upper [] _;
      pending_fresh = IsFresh-merge_pending merged.accounts _;
    }
