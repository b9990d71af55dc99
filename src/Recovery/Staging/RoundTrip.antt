-- ===== src/Recovery/Staging/RoundTrip.antt =====
-- What is stored of a staging is read back (packages/frontend/src/lib/recoveryActions.ts).
use nido.Base.{◌%◌, List, [], ◌∷◌, some, ◌≡◌, refl, map, All, arith}
use nido.Base.Dict.{Dict, values}
use nido.ZkRecovery.Field.{Bytes, IsBytes}
use nido.Recovery.{FriendEntry, FriendSignature, StagedRotationTx, RotationStaging}
use nido.Recovery.Staging.{
  to_bytes, serialize_entry, serialize_friend_sig, stored_entries, deserialize_entry,
  deserialize_friend_sig, map_values, stored_tx, loaded_tx, loaded_txs, save_staging, load_staging,
}

to_bytes-IsBytes : (bytes : Bytes) → IsBytes bytes → to_bytes bytes ≡ bytes
unfolding to_bytes
to_bytes-IsBytes [] h = refl
to_bytes-IsBytes (b ∷ bytes) (small, h) =
    let whole : b % 256 ≡ b = omega arith in rw (whole, to_bytes-IsBytes bytes h) refl

-- A signature whose parts are bytes.
pub record IsByteEntry (e : FriendEntry) : Type 0 where
  pub authenticator : IsBytes e.authenticator_data
  pub client : IsBytes e.client_data_json
  pub signed : IsBytes e.signature

pub record IsByteSignature (s : FriendSignature) : Type 0 where
  pub key : IsBytes s.public_key
  pub all : All IsByteEntry s.entries

deserialize-serialize_entry :
    (e : FriendEntry) → IsByteEntry e → deserialize_entry (serialize_entry e) ≡ e
unfolding deserialize_entry serialize_entry
deserialize-serialize_entry e h =
    simp
      (
        to_bytes-IsBytes e.authenticator_data h.authenticator,
        to_bytes-IsBytes e.client_data_json h.client,
        to_bytes-IsBytes e.signature h.signed,
      )
      refl

deserialize-serialize_entries :
    (es : List FriendEntry)
    → All IsByteEntry es
    → map deserialize_entry (map serialize_entry es) ≡ es
deserialize-serialize_entries [] h = refl
deserialize-serialize_entries (e ∷ es) (p, h) =
    rw (deserialize-serialize_entry e p, deserialize-serialize_entries es h) refl

deserialize-serialize_friend_sig :
    (s : FriendSignature) → IsByteSignature s → deserialize_friend_sig (serialize_friend_sig s) ≡ s
unfolding deserialize_friend_sig serialize_friend_sig stored_entries
deserialize-serialize_friend_sig s h =
    simp (to_bytes-IsBytes s.public_key h.key, deserialize-serialize_entries s.entries h.all) refl

deserialize-serialize_collected :
    (d : Dict FriendSignature)
    → All IsByteSignature (values d)
    → map_values deserialize_friend_sig (map_values serialize_friend_sig d) ≡ d
unfolding map_values values
deserialize-serialize_collected [] h = refl
deserialize-serialize_collected ((k, s) ∷ d) (p, h) =
    rw (deserialize-serialize_friend_sig s p, deserialize-serialize_collected d h) refl

loaded-stored_txs : (txs : List StagedRotationTx) → loaded_txs (map stored_tx txs) ≡ some txs
unfolding loaded_txs loaded_tx stored_tx
loaded-stored_txs [] = refl
loaded-stored_txs (tx ∷ txs) = rw (loaded-stored_txs txs) refl

-- What `saveStaging` writes, `loadStaging` reads back whole, when the friends' signatures are bytes.
pub load_staging-save_staging :
    (staging : RotationStaging)
    → All IsByteSignature (values staging.collected)
    → load_staging (some (save_staging staging)) ≡ some staging
unfolding load_staging save_staging
load_staging-save_staging staging h =
    simp (loaded-stored_txs staging.txs, deserialize-serialize_collected staging.collected h) refl
