-- ===== src/Scenarios.antt =====
-- Concrete runs, and tests of the conversions.
mod Data
mod Api
mod Zk
mod Upgrades
mod Runs
mod Claims
mod Locks
mod Exports
mod Starts
mod Servers
mod Shelves
mod Sets
mod Wholes
mod Texts
mod Copies
mod Recoveries
mod Trees
