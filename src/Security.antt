-- ===== src/Security.antt =====
-- authzkit/security: delegation grants.
pub mod Scopes
pub mod ApiKeys
pub mod OauthClients
pub mod Invitations
pub mod Principal
pub mod Sessions
pub mod OauthResource
pub mod SigningKeys
pub mod Tokens
pub mod Delegations
