-- ===== src/Workspaces.antt =====
-- The Workspace domain: domains/workspaces and infrastructure/db/workspace_repository.py.
pub mod Models
pub mod Reads
pub mod Repository
pub mod Service
pub mod Creation
