-- ===== src/Rbac.antt =====
-- Roles, permissions and the policy decision point (authzkit/rbac).
pub mod Models
pub mod Requests
pub mod Subjects
pub mod Checker
