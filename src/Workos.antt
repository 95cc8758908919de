-- ===== src/Workos.antt =====
-- The adapters of infrastructure/auth/: the verification of WorkOS tokens, and WorkOS profiles.
pub mod Times
pub mod Tokens
pub mod Verified
pub mod Current
pub mod Raised
pub mod Profiles
pub mod Quoted
pub mod Fetched
