-- ===== src/Tests.antt =====
-- The theorems at concrete inputs, over small implementations of the libraries that are parameters.
mod Library
mod Books
mod Syncs
mod BybitSyncs
mod Windows
mod Numbers
mod Profits
mod Orders
mod Quantities
mod Statistics
mod Strategies
mod Pools
mod Subscriptions
mod Sessions
mod Requests
mod Listeners
mod Parsers
mod Storages
mod Executions
mod Notifiers
