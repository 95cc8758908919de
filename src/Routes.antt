-- ===== src/Routes.antt =====
-- The HTTP routes: api/routes/v1 and api/dependencies of the control API.
pub mod Handling
pub mod Accounts
pub mod Workspaces
pub mod Projects
pub mod Connections
pub mod ConnectionHandlers
pub mod Calls
pub mod Quiet
pub mod Reads
pub mod Quietly
pub mod Answered
