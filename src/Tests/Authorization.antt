-- ===== src/Tests/Authorization.antt =====
-- The commitments of the recovery.
use nido.Base.{◌≡◌, ◌⊎◌, refl, List, [], ◌∷◌, some, replicate, arith}
use nido.Base.Decimal.{Text}
use nido.ZkRecovery.Field.{Fr, Bytes, split16}
use nido.ZkRecovery.Poseidon.{p2}
use nido.ZkRecovery.AuthHash.{AuthHashParams, compute_nullifier, wrap_leaf_stored}
use nido.ZkRecovery.AuthHash.Preimage.{IsCall, IsSameCall}
use nido.ZkRecovery.AuthHash.Commitment.{
  HashCollision, compute_auth_hash_binding, compute_nullifier_binding,
}

abbrev toy_hash : List Fr → Fr
toy_hash xs = 5

abbrev toy_sha256 : Bytes → Bytes
toy_sha256 bytes = replicate 32 9

abbrev toy_encode : Text → Bytes
toy_encode text = text

abbrev initiate : AuthHashParams
initiate = record {
  action = 1;
  account_id32 = replicate 32 1;
  network_passphrase = b'T' ∷ [];
  controller_id32 = replicate 32 2;
  new_pubkey65 = some (replicate 65 4);
  nonce = 7;
  timelock_secs = 86400;
}

initiate-IsCall : IsCall toy_sha256 toy_encode initiate
initiate-IsCall = record {
  action-lt = omega arith;
  account-IsBytes = omega arith;
  account-length = refl;
  npass-IsBytes = omega arith;
  npass-length = refl;
  controller-IsBytes = omega arith;
  controller-length = refl;
  key-IsBytes = omega arith;
  key-length = refl;
  nonce-lt = omega arith;
  timelock-lt = omega arith;
}

compute_auth_hash_binding_example :
    IsSameCall toy_sha256 toy_encode initiate initiate ⊎ HashCollision toy_hash
compute_auth_hash_binding_example =
    compute_auth_hash_binding toy_hash toy_sha256 toy_encode initiate initiate initiate-IsCall
      initiate-IsCall refl

compute_nullifier_binding_example :
    ((◌≡◌ {A = Bytes} (replicate 32 1) (replicate 32 1)) × (◌≡◌ {A = Fr} 3 3))
    ⊎ HashCollision toy_hash
compute_nullifier_binding_example =
    compute_nullifier_binding toy_hash (replicate 32 1) (replicate 32 1) 3 3 (omega arith)
      (omega arith) refl refl (omega arith) (omega arith) refl

colliding :
    compute_nullifier toy_hash (replicate 32 1) 3 ≡ wrap_leaf_stored toy_hash (replicate 32 2) 4
unfolding wrap_leaf_stored compute_nullifier p2 split16
colliding = refl
