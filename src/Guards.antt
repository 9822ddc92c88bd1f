-- ===== src/Guards.antt =====
-- authzkit/agents, authzkit/tools, authzkit/mcp: enforcement inside an agent's run.
pub mod Agents
pub mod Tools
pub mod Mcp
