-- ===== src/Route.antt =====
-- server/RouteController.cpp: routing rules and routes, asked of the kernel by netlink, and the
-- cache of table numbers. Its requests are in `Requests`, its rules in `Rules`, the changes that a
-- network makes in `Networks`, its routes in `Paths`; the proofs are in the other children.
pub mod Priority
pub mod Requests
pub mod Tables
pub mod Rules
pub mod Networks
pub mod Paths
pub mod Asked
pub mod Guard
pub mod Plans
pub mod Matching
pub mod Selecting
pub mod Sent
pub mod Installed
pub mod Lookups
pub mod Physical
pub mod Flush
pub mod Membership
pub mod Change
