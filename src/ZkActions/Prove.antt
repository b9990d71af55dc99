-- ===== src/ZkActions/Prove.antt =====
-- packages/frontend/src/lib/zk/prover.ts, prover.worker.ts and manifest.ts: the proof pipeline. The
-- parameters are the fetch of the circuit, `sha256`, and Noir with its backend: the public inputs as
-- numbers and the proof, or the message of an error.
pub mod Pinned
use nido.Base.{
  ℕ, ◌%◌, List, [], ◌∷◌, ◌++◌, map, Bool, not, Result, ok, err, ◌>>=◌, ◌>>◌, ◌==◌, if◌then◌else◌,
  length,
}
use nido.Base.Decimal.{Text}
use nido.Base.Texts.{codes, same_text}
use nido.Money.{trim}
use nido.Policy.Rules.Resolve.{bytes_to_hex, to_lower_case}
use nido.ZkRecovery.Field.{Bytes, emit_be}
use nido.Signing.Pairs.{hex_pairs}
use nido.ZkActions.Blob.{BlobError, build_proof_blob}
use nido.ZkActions.Circuit.{NoirInputMap}

pub data ProverError : Type 0 where
  fetch_failed : (status : ℕ) → ProverError
  manifest_mismatch : (fetched : Text) → ProverError
  backend_failed : (message : Text) → ProverError
  bad_blob : BlobError → ProverError
  odd_hex : ℕ → ProverError

abbrev pub circuit_sha256 : Text
circuit_sha256 = codes "bfb14bb25e356411245c7a1ae1a997b3ee8e5c5cdb8e1627aad87b68015a1ec4"

unfoldable pub manifest_check : (fetched_sha expected_sha : Text) → Result ProverError (Unit {0})
manifest_check fetched_sha expected_sha =
    if not (same_text (to_lower_case (trim fetched_sha)) (to_lower_case (trim expected_sha)))
    then err (manifest_mismatch (to_lower_case (trim fetched_sha)))
    else ok tt

-- The loop takes the last 32 bytes of the value.
unfoldable pub encode_field_be : ℕ → Bytes
encode_field_be value = emit_be 32 value []

unfoldable pub hex_to_bytes : Text → Result ProverError Bytes
hex_to_bytes hex =
    if not (length hex % 2 == 0) then err (odd_hex (length hex)) else ok (hex_pairs hex)

pub record Toolchain : Type 0 where
  pub fetch_circuit : Text → Result ProverError Bytes
  pub sha256 : Bytes → Bytes
  pub backend : Bytes → NoirInputMap → Result ProverError (List ℕ × Bytes)

abbrev pub blob_result : Result BlobError Bytes → Result ProverError Bytes
blob_result (ok x) = ok x
blob_result (err e) = err (bad_blob e)

module _ (tools : Toolchain) where
  unfoldable pub verify_and_parse_circuit : Bytes → Result ProverError Bytes
  verify_and_parse_circuit bytes =
      manifest_check (bytes_to_hex (tools.sha256 bytes)) circuit_sha256 >> ok bytes

  -- The blob in hex, as the worker posts it.
  unfoldable pub run_prove : (circuit_name : Text) → NoirInputMap → Result ProverError Text
  run_prove circuit_name inputs = tools.fetch_circuit circuit_name >>= λ bytes.
      verify_and_parse_circuit bytes >>= λ circuit.
      tools.backend circuit inputs >>= λ (public_inputs, proof).
      blob_result (build_proof_blob (map encode_field_be public_inputs) proof) >>= λ blob.
      ok (bytes_to_hex blob)

  unfoldable pub prove : (circuit_name : Text) → NoirInputMap → Result ProverError Bytes
  prove circuit_name inputs = run_prove circuit_name inputs >>= λ blob_hex. hex_to_bytes blob_hex
