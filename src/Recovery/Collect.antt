-- ===== src/Recovery/Collect.antt =====
-- The friends' replies of packages/frontend/src/lib/recoveryActions.ts: `addFriendSignature`,
-- `collectedCount` and `collectFromRelay`. The decoding of a blob is a parameter: it gives a signature
-- or throws.
pub mod Quorum
use nido.Base.{
  ℕ, List, [], ◌∷◌, ◌++◌, Option, none, some, Bool, not, Result, ok, err, ◌==◌, if◌then◌else◌,
  length,
}
use nido.Base.Decimal.{Text}
use nido.Base.Texts.{has}
use nido.Base.Dict.{insert, values}
use nido.Recovery.{FriendSignature, RotationStaging}

pub data CollectError : Type 0 where
  no_rotation bad_blob : CollectError
  not_a_friend : Text → CollectError
  wrong_cover : (covered staged : ℕ) → CollectError

module _ (decode : Text → Option FriendSignature) where
  unfoldable pub add_signature :
      RotationStaging → FriendSignature → Result CollectError RotationStaging
  add_signature staging fs =
      if not (has staging.friends fs.friend_account)
      then err (not_a_friend fs.friend_account)
      else if not (length fs.entries == length staging.txs)
      then err (wrong_cover (length fs.entries) (length staging.txs))
      else ok (record staging { collected = insert fs.friend_account fs staging.collected })

  -- `stored` is the staging before; the one that is returned is the one that is saved.
  unfoldable pub add_friend_signature :
      (stored : Option RotationStaging) → (blob : Text) → Result CollectError RotationStaging
  add_friend_signature none blob = err no_rotation
  add_friend_signature (some staging) blob = elim (decode blob) [
    | none ↦ err bad_blob
    | some fs ↦ add_signature staging fs
  ]

  -- A blob that is refused is skipped; `listed` pairs a friend with a blob.
  unfoldable pub collect_from_relay :
      (known : List Text)
      → (listed : List (Text × Text)) → Option RotationStaging
      → List Text
      → Option RotationStaging × List Text
  collect_from_relay known [] stored added = (stored, added)
  collect_from_relay known ((friend, blob) ∷ listed) stored added =
      let skip = collect_from_relay known listed stored added in
      if has known friend then skip else elim (add_friend_signature stored blob) [
        | err error ↦ skip
        | ok staging ↦ collect_from_relay known listed (some staging) (added ++ friend ∷ [])
      ]

unfoldable pub collected_count : RotationStaging → ℕ
collected_count staging = length staging.collected
