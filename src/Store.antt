-- ===== src/Store.antt =====
-- internal/master/store/store.go: the master's persistent state.
pub mod Tables
pub mod Sql
pub mod Statements
pub mod Nodes
pub mod Containers
pub mod Ports
pub mod Gpus
pub mod Lasting
pub mod Reads
pub mod Calls
pub mod Ledger
pub mod Validity
