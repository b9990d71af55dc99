-- ===== src/ZkActions/Staged.antt =====
-- packages/passkey-sdk/src/zkRecovery/overlay.ts: the note of a recovery that has begun, in the
-- browser's storage. `JSON.stringify` and `JSON.parse` are parameters.
use nido.Base.{ℕ, ◌++◌, [], ◌∷◌, Option, none, some, Bool, if◌then◌else◌}
use nido.Base.Decimal.{Text}
use nido.Base.Dict.{Dict, lookup, insert}
use nido.Base.Texts.{codes, same_text}

pub record StagedRecovery : Type 0 where
  pub new_pubkey65_hex : Text
  pub initiated_at : ℕ
  pub executable_after : ℕ

-- The storage, `none` where there is none or its access throws; whether it answers reads and takes
-- writes and removals.
pub record Storage : Type 0 where
  pub items : Option (Dict Text)
  pub readable : Bool
  pub writable : Bool

abbrev pub namespace : Text
namespace = codes "nido:zkrecovery"

unfoldable pub storage_key : Text → Text
storage_key account = namespace ++ codes ":" ++ account

unfoldable pub remove_item : Text → Dict Text → Dict Text
remove_item key [] = []
remove_item key ((k, v) ∷ items) =
    let rest = remove_item key items in if same_text k key then rest else (k, v) ∷ rest

unfoldable pub clear_staged : Storage → Text → Storage
clear_staged storage account = elim storage.items [
  | none ↦ storage
  | some items ↦
      if storage.writable
      then record storage { items = some (remove_item (storage_key account) items) }
      else storage
]

module _ (stringify : StagedRecovery → Text) where
  unfoldable pub stage_recovery : Storage → Text → StagedRecovery → Storage
  stage_recovery storage account staged = elim storage.items [
    | none ↦ storage
    | some items ↦
        if storage.writable
        then record storage { items = some (insert (storage_key account) (stringify staged) items) }
        else storage
  ]

module _ (parse : Text → Option StagedRecovery) where
  unfoldable pub read_staged : Storage → Text → Option StagedRecovery
  read_staged storage account = elim storage.items [
    | none ↦ none
    | some items ↦
        if storage.readable
        then elim (lookup (storage_key account) items) [ none ↦ none | some raw ↦ parse raw ]
        else none
  ]
