-- ===== src/Tenancy.antt =====
-- Tenants, applications, users and memberships (authzkit/tenancy).
pub mod Models
pub mod Resolver
