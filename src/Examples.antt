-- ===== src/Examples.antt =====
-- Concrete policies, stores and requests on which the definitions run and the theorems apply.
pub mod Policies
pub mod Accounts
pub mod Requests
mod Overrides
pub mod Objects
mod Logins
mod Ranges
pub mod Latest
pub mod Uploads
mod Copies
mod Keys
pub mod Clock
pub mod Mail
mod Logon
mod Managed
mod Listings
mod Replaced
