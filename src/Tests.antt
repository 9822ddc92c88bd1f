-- ===== src/Tests.antt =====
-- Runs of the code on examples, and the theorems at concrete inputs.
mod Decisions
mod Stores
mod Roles
mod Conditions
mod Grants
mod Contexts
mod Limits
mod Permissions
mod Keys
mod Endpoints
mod Accounts
mod Middleware
mod Tokens
