-- ===== src/Tests.antt =====
-- Concrete data, tests of the definitions on it, and the theorems at it.
mod Fixtures
mod Ledger
mod Engine
mod Pool
mod Validators
mod Proposal
mod Storage
mod Answers
mod Accounts
mod Wallet
mod Server
