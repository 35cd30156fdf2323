-- ===== src/Tests.antt =====
-- Runs of the theorems about extension/maxminddb.c on one small database.
mod Data
mod Lookups
mod Networks
mod Objects
mod Locks
mod Modules
mod Python
mod Opening
