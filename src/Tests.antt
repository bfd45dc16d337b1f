-- ===== src/Tests.antt =====
-- The development on concrete inputs.
mod Fixtures
mod Sync
mod Runs
mod Server
mod Parts
mod Scopes
mod Device
mod Database
mod Postgres
mod Cycles
mod Token
mod Between
