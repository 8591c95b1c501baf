-- ===== src/Tests.antt =====
-- The models run on concrete inputs, and the theorems applied to them.
mod Texts
mod Transactions
mod Abi
mod Bulk
mod Kinds
mod Values
mod Database
mod Tasks
mod Routes
mod Streams
mod Reads
