-- ===== src/Policies.antt =====
-- The attribute layer (authzkit/policies): conditions over request attributes, and the rules
-- that apply them.
pub mod Value
pub mod Expressions
pub mod Engine
