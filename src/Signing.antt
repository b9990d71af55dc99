-- ===== src/Signing.antt =====
-- The signing of transactions: packages/passkey-sdk/src/signature.ts and auth.ts, and
-- packages/frontend/src/lib/primaryPasskeySigner.ts with signing/submit.ts.
pub mod Pairs
pub mod Der
pub mod Entry
pub mod Submit
pub mod Owner
