-- ===== src/Controller.antt =====
-- server/NetworkController.cpp: the networks by their ids, the default network, the users'
-- permissions. Commands are run one at a time, so the read-write lock is not modelled.
pub mod State
pub mod Queries
pub mod Commands
pub mod Invariant
pub mod Preserved
pub mod Creation
pub mod Members
pub mod Requests
pub mod Holders
pub mod Sharing
pub mod Assignment
pub mod Exclusive
pub mod Access
pub mod Routes
pub mod Selection
