-- ===== src/Relayer.antt =====
-- The relayer's client, packages/passkey-sdk/src/relayer.ts, and the gate of its plugin,
-- infra/relayer/plugins/channels/allowlist.ts and index.ts.
pub mod Wait
pub mod Gate
