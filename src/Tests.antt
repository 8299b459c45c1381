-- ===== src/Tests.antt =====
-- Tests on concrete inputs, and the theorems applied at such inputs.
mod Answers
mod Stores
mod Slots
mod Caches
mod Governors
mod Access
mod Formats
mod Jobs
mod Reads
mod Clusters
mod Lists
mod Outbounds
mod Secrets
