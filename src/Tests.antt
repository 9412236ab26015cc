-- ===== src/Tests.antt =====
-- Small registries, backends and tables, and what the operations do with them.
mod Data
mod Registry
mod Promotion
mod Lifecycle
mod Runs
mod Boundary
mod Accounts
mod Validation
mod Worker
mod Evaluation
mod Datasets
mod Uploads
mod Access
