-- ===== src/Connections.antt =====
-- The Connection control plane: domains/connections and its repository.
pub mod Models
pub mod Values
pub mod Policies
pub mod Providers
pub mod Repository
pub mod Service
pub mod Effects
pub mod Requests
pub mod Rows
pub mod Members
pub mod Returned
pub mod Answers
pub mod Numbers
pub mod Guards
pub mod Lifecycle
pub mod Listing
pub mod Drafts
