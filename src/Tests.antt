-- ===== src/Tests.antt =====
-- The theorems at concrete data, and runs of the definitions.
mod Data
mod Stores
mod Agents
mod Handlers
mod Nodes
mod Polls
mod Dockers
mod Hosts
mod Ledgers
mod Pipes
mod Starts
mod Loops
