-- ===== src/Lib.antt =====
-- Nido: a passkey wallet for Stellar smart accounts. The parts modelled here are the TypeScript
-- code that decides: what the SDK and the workers compute before anything is signed or sent.
--
-- The zero-knowledge recovery (packages/passkey-sdk/src/zkRecovery) keeps a pool of leaves. A wallet
-- downloads them from an untrusted indexer, merges them (`mergeLeaves`), rebuilds the tree
-- (`IncrementalTree`), compares its root with the chain's, finds its own leaf (`locateLeaf`) and
-- hands the path to the prover. The indexer (infra/pool-indexer) stores the leaves and computes the
-- same root by another algorithm. The multisig rotation (policyBlocks) plans the calls that change
-- the keys of an account. The frontend prints and reads amounts, reads the rules of
-- an account from the chain, shows them as blocks, and runs a recovery by friends: it stages the
-- transactions of a plan, collects the friends' replies and submits them one after the other.
--
-- Files
--   - Base: shared names; lists, results, Boolean tests, decimal text, bits, and ℤ over the native ℕ.
--   - ZkRecovery/Field, Poseidon, Merkle, PoolSync: field.ts, poseidon.ts, merkle.ts and poolSync.ts of
--     zkRecovery. `poseidon2Hash` and `p2` at two inputs are parameters.
--   - ZkRecovery/AuthHash: authHash.ts, over `sha256` and the text encoder as further parameters.
--   - PoolIndexer/Merkle, Store, Snapshot: infra/pool-indexer/src/merkle.ts, the store and the scan of
--     handler.ts and scanner.ts over any key-value service, and the routes of handler.ts. The pages
--     of a listing are read with fuel, one for each page that the service has.
--   - Rotation: planRotation of packages/passkey-sdk/src/policyBlocks/multisigRotation.ts; Rotation/
--     States runs the plan's calls on the counts of a rule.
--   - Money, Money/Limit: packages/frontend/src/lib/money.ts, and stroopsFromXlm of
--     spendingLimitParams.ts beside it.
--   - Webauthn: packages/passkey-sdk/src/webauthn.ts. `skipValue` has fuel for its nesting, two more
--     than the bytes of the attestation object, since every level reads a byte.
--   - Relayer/Wait, Relayer/Gate: waitForConfirmation of packages/passkey-sdk/src/relayer.ts, and
--     infra/relayer/plugins/channels. The poll, the XDR decoders and the upstream handler are
--     parameters. The number of attempts is the source's own bound.
--   - Claiming: the decisions of packages/frontend/src/lib/claimFlow.ts, over `toUpperCase`.
--   - Accounts: the accounts and the pending accounts of packages/passkey-sdk/src/storage.ts.
--   - Policy: packages/passkey-sdk/src/policyBlocks (types.ts, registry.ts, loadBlocks.ts, `fromChain`
--     and `summarize` of multisigRecovery.ts and scopedSessionKey.ts), with policyChainFetch.ts and
--     securitySummary.ts of packages/frontend/src/lib. What a simulated view returns is a parameter;
--     the scan of ids has the source's own bound, 100 ids more than the live rules.
--   - Recovery: packages/frontend/src/lib/recoveryActions.ts, with the types of
--     packages/passkey-sdk/src/friendSigning.ts: the staging and its stored form, the replies, the
--     submission through the relayer or the network, the rules, and the digests of both sides. What
--     the Stellar SDK reads, and the answers of the relayer, the network, the store of transactions
--     and the passkey are parameters; a call may throw before or after its request arrived.
--     A status is polled 30 times, as in the source.
--   - Sharing: the normalisation and the merge of snapshots of
--     packages/frontend/src/lib/nidoSharedStorage.ts, over `toUpperCase`.
--   - ZkActions: packages/frontend/src/lib/zkRecoveryActions.ts, with zk/blob.ts, zk/manifest.ts,
--     zk/prover.ts and zk/prover.worker.ts beside it, and recovery.ts, enrollment.ts and overlay.ts of
--     zkRecovery: the download of the leaves, the inputs of the circuit, the proof, the calls, and
--     the recovery from its start to its completion. The chain, the indexer, the proving backend and
--     the passkey are parameters, and each answers one question in one way during an action. The
--     scan of the pool's events has the source's own bound of 1000 pages.
--   - Signing: packages/passkey-sdk/src/signature.ts and auth.ts, the payload of multiSigner.ts, and
--     primaryPasskeySigner.ts and signing/submit.ts of packages/frontend/src/lib. XDR, the hashes,
--     the relayer, the node and the passkey are parameters; fees and footprints are left out.
--   - Tests: runs and the instances of the results at concrete inputs.
--
-- Conventions. A bigint that is never negative is a natural number, a byte is a natural number, and
-- text is a list of character codes. Numbers of JavaScript that stay in the range of exact integers
-- are natural numbers; `>>` and `& 1` on an index read it as 32 bits. A function that throws returns
-- a `Result`. A class that only appends to an array is the array. Loops are structural recursion on
-- the array or on the number of rounds that are left, except for the
-- pages of a listing and the nesting of CBOR: a counted loop takes exactly the rounds of its bound.
--
-- Not modelled: what only calls the network, the browser or a generated client, pages and
-- components, and the contracts and circuits, which are written in other languages.
pub mod Base
pub mod ZkRecovery
pub mod PoolIndexer
pub mod Rotation
pub mod Money
pub mod Webauthn
pub mod Relayer
pub mod Claiming
pub mod Accounts
pub mod Policy
pub mod Recovery
pub mod Sharing
pub mod ZkActions
pub mod Signing
mod Tests
