-- ===== src/Authentication.antt =====
-- Authentication: admission of a bearer token to a user's session.
pub mod Models
pub mod Statements
pub mod Reads
pub mod Repository
pub mod Principals
pub mod Service
pub mod Inserts
pub mod Joins
pub mod Consistency
pub mod Admitted
pub mod Admission
pub mod Unique
pub mod Authenticated
pub mod Replay
pub mod Evidence
pub mod Effects
pub mod Changes
pub mod Rules
pub mod Provisioned
