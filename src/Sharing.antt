-- ===== src/Sharing.antt =====
-- packages/frontend/src/lib/nidoSharedStorage.ts: the accounts that two origins share. What `JSON.parse`
-- gives is data: a string that is not there is `none`, an array that is none is empty. `toUpperCase`
-- is the parameter `upper`. The bridge between the origins is left out: it drives a frame.
pub mod Clean
use nido.Base.{
  ℕ, List, [], ◌∷◌, ◌++◌, Option, none, some, Bool, true, false, ◌&&◌, ◌||◌, not, if◌then◌else◌,
  length,
}
use nido.Base.Decimal.{Text}
use nido.Base.Dict.{Dict, insert, lookup}
use nido.Base.Texts.{same_text, has}
use nido.Accounts.{PendingAccount}
use nido.Claiming.{is_contract_id, valid_name_re}
use nido.Recovery.{truthy}

pub data RawPending : Type 0 where
  not_an_object : RawPending
  entry : (contract_id setup_key secret_key : Option Text) → RawPending

pub record RawSnapshot : Type 0 where
  pub accounts : List (Option Text)
  pub pending : List RawPending
  pub names : List (Text × Option Text)

pub record NidoAccountSnapshot : Type 0 where
  pub accounts : List Text
  pub pending : List PendingAccount
  pub names : Dict Text

abbrev pub pending_ids : List PendingAccount → List Text
pending_ids [] = []
pending_ids (p ∷ pending) = p.contract_id ∷ pending_ids pending

-- The key under which an account is set up: an older name of the field is read too.
unfoldable pub setup_key_of : Option Text → Option Text → Option Text
setup_key_of setup_key secret_key = elim (truthy setup_key) [
  | some key ↦ some key
  | none ↦ truthy secret_key
]

-- The map by id: the first of each id that is not active.
unfoldable pub merge_pending : List Text → List PendingAccount → List PendingAccount
merge_pending seen [] = []
merge_pending seen (p ∷ pending) =
    let skip = merge_pending seen pending in
    let take_it = p ∷ merge_pending (p.contract_id ∷ seen) pending in
    if has seen p.contract_id then skip else take_it

unfoldable pub present : List Text → List (Option Text)
present [] = []
present (id ∷ ids) = some id ∷ present ids

-- `{ ...before, ...next }`.
unfoldable pub merge_names : Dict Text → Dict Text → Dict Text
merge_names before [] = before
merge_names before ((id, name) ∷ next) = merge_names (insert id name before) next

module _ (upper : Text → Text) where
  unfoldable pub normalize_contract_id : Option Text → Option Text
  normalize_contract_id none = none
  normalize_contract_id (some value) =
      if is_contract_id (upper value) then some (upper value) else none

  -- The loop of `uniqueContractIds`; `seen` are the ids so far.
  unfoldable pub unique_from : List Text → List (Option Text) → List Text
  unique_from seen [] = []
  unique_from seen (value ∷ values) = elim (normalize_contract_id value) [
    | none ↦ unique_from seen values
    | some id ↦
        let skip = unique_from seen values in
        let take_it = id ∷ unique_from (id ∷ seen) values in if has seen id then skip else take_it
  ]

  unfoldable pub unique_contract_ids : List (Option Text) → List Text
  unique_contract_ids values = unique_from [] values

  -- The loop of `normalizePending`; `seen` are the active ids and those so far.
  unfoldable pub pending_from : List Text → List RawPending → List PendingAccount
  pending_from seen [] = []
  pending_from seen (not_an_object ∷ values) = pending_from seen values
  pending_from seen (entry contract_id setup_key secret_key ∷ values) =
      let skip = pending_from seen values in
      elim (normalize_contract_id contract_id) [
        | none ↦ skip
        | some id ↦ if has seen id then skip else elim (setup_key_of setup_key secret_key) [
          | none ↦ skip
          | some key ↦
              record { contract_id = id; setup_key = key } ∷ pending_from (id ∷ seen) values
        ]
      ]

  unfoldable pub normalize_pending : List RawPending → List Text → List PendingAccount
  normalize_pending values active = pending_from active values

  unfoldable pub names_from : Dict Text → List (Text × Option Text) → Dict Text
  names_from names [] = names
  names_from names ((key, none) ∷ values) = names_from names values
  names_from names ((key, some name) ∷ values) = elim (normalize_contract_id (some key)) [
    | none ↦ names_from names values
    | some id ↦
        if valid_name_re name
        then names_from (insert id name names) values
        else names_from names values
  ]

  unfoldable pub normalize_names : List (Text × Option Text) → Dict Text
  normalize_names values = names_from [] values

  unfoldable pub normalize_snapshot : RawSnapshot → NidoAccountSnapshot
  normalize_snapshot snapshot =
      let active = unique_contract_ids snapshot.accounts in
      record {
        accounts = active;
        pending = normalize_pending snapshot.pending active;
        names = normalize_names snapshot.names;
      }

  -- `after` of `mergeNidoSnapshot`, from the local snapshot and what came in.
  unfoldable pub merged_snapshot : NidoAccountSnapshot → RawSnapshot → NidoAccountSnapshot
  merged_snapshot before incoming =
      let next = normalize_snapshot incoming in
      let active = unique_contract_ids (present (before.accounts ++ next.accounts)) in
      record {
        accounts = active;
        pending = merge_pending active (before.pending ++ next.pending);
        names = merge_names before.names next.names;
      }
