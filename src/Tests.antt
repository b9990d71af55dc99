-- ===== src/Tests.antt =====
-- Runs of the definitions at concrete inputs, and the theorems at inputs that meet their hypotheses.
mod Pool
mod Recovery
mod Wallet
mod Authorization
mod Indexer
mod Registration
mod Relaying
mod Naming
mod Onboarding
mod Policies
mod Restoring
mod Sharing
mod Handoff
mod Actions
mod ZkRun
mod ZkActions
mod ZkProof
mod Signatures
