-- ===== src/Rbac.antt =====
-- The access checks of the package rbac, one module for each kind of object, and what they decide.
pub mod Engine
pub mod Organization
pub mod Team
pub mod User
pub mod Project
pub mod Credential
pub mod Inventory
pub mod JobTemplate
pub mod TerraformJobTemplate
pub mod Decisions
pub mod Resources
pub mod Order
pub mod Templates
pub mod Grants
pub mod Escalation
