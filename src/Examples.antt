-- ===== src/Examples.antt =====
-- The theorems at concrete packets, values, rules and requests.
pub mod Codec
pub mod Services
pub mod Clients
pub mod Access
pub mod Caches
pub mod Names
pub mod Servers
pub mod Accounts
