-- ===== src/Tests.antt =====
-- Runs of the modelled code, and the theorems at concrete data.
mod Chats
mod Sessions
mod Retries
mod Access
mod Providers
mod Responses
mod Stores
mod Tables
mod Wires
mod Mocks
mod Servers
mod Processes
mod Counters
