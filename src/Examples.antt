-- ===== src/Examples.antt =====
-- The theorems at concrete inputs, over a world that stands for the clock, the database and the cache.
mod Memory
mod MemoryLaws
mod Urls
mod Tokens
mod Race
mod Threads
mod Delivery
mod Ledger
mod Lasting
mod Site
mod Rows
mod Reports
mod Setup
mod Accounts
mod Sessions
mod Guard
mod Timeout
mod Metrics
