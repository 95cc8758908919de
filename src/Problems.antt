-- ===== src/Problems.antt =====
-- Problem documents: api/problems/ of the control API.
pub mod Codes
pub mod Specs
pub mod Registry
pub mod Pointer
pub mod Responses
pub mod Handlers
pub mod Dispatch
pub mod Answers
pub mod Statuses
pub mod Http
pub mod Refusals
pub mod Validity
