-- ===== src/Examples.antt =====
-- Runs of the models at concrete inputs.
mod Packages
mod Pages
mod Accounts
mod Search
mod Proposals
mod Registry
mod Checks
