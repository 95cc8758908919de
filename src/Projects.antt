-- ===== src/Projects.antt =====
-- The Project domain: domains/projects and infrastructure/db/project_repository.py.
pub mod Models
pub mod Policies
pub mod Reads
pub mod Repository
pub mod Service
pub mod Creation
pub mod Listing
pub mod Client
