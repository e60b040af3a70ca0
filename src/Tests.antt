-- ===== src/Tests.antt =====
-- Runs of the theorems on concrete networks, marks and requests.
pub mod Kernels
pub mod Marks
pub mod Routes
pub mod Controllers
pub mod Servers
pub mod Bandwidth
pub mod Tethering
pub mod Daemons
pub mod Clatd
pub mod Clients
pub mod Commands
pub mod Firewall
