-- ===== src/Lib.antt =====
-- Verification of authz: the decision point that answers "may this subject do this action on this
-- resource", what it reads, and what enforces its answers.
--
-- Parts, and how they interact. A request names a tenant, an application, a subject (a user, or an
-- agent that acts for a user), a resource and an action. The decision point asks its repository for
-- the permissions of the subject, narrows them by the tenant's mask and by a delegation grant, and
-- then asks the policy engine. The in-memory store is such a repository. The tenant resolver turns
-- an external identity into a user in a tenant. The guards keep the permissions of an agent's run
-- and decide without the decision point. Delegation grants are signed tokens with a stored row.
-- The rate limiter stands before the service. The service admits a caller by an API key, an OAuth
-- token or a browser's session, binds it to its tenant, resolves the references of the request,
-- checks the delegation token, asks the decision point, and writes the audit log. Signing keys sign
-- the grants and rotate; API keys, OAuth clients, invitations and sessions are rows of SQL tables.
--
-- Files, and the code each models (paths from the root of the repository):
--   Base and its children: truth values, results, sets, dictionaries, and their lemmas.
--   Exceptions: authzkit/exceptions.py.
--   Policies/Value, Policies/Expressions: authzkit/policies/expressions.py (`_resolve`,
--     `evaluate_expression`) over Python values; Policies/Engine: authzkit/policies/engine.py.
--   Rbac/Models: authzkit/rbac/models.py. Rbac/Requests, Rbac/Subjects, Rbac/Checker:
--     authzkit/rbac/checker.py (`authorize`, `bulk_authorize`, `effective_permissions` and their
--     private methods), over the interface of authzkit/rbac/repository.py.
--   Tenancy/Models: authzkit/tenancy/models.py, authzkit/agents/models.py. Tenancy/Resolver:
--     authzkit/tenancy/resolver.py, with `resolve_membership_permissions` of
--     authzkit/rbac/resolver.py.
--   Storage/Memory and its children: authzkit/storage/memory.py, one function for each method of
--     `InMemoryStore`; a method that writes returns the new store.
--   Guards/Agents: authzkit/agents/resolver.py, authzkit/agents/guard.py. Guards/Tools:
--     authzkit/tools. Guards/Mcp: authzkit/mcp.
--   Storage/Tables: the statements that the services send to the tables of authzkit/storage/orm.py.
--   Security/Tokens, Security/Delegations: `DelegationService` of authzkit/security/delegations.py.
--   Security/Scopes, Security/OauthResource, Security/ApiKeys, Security/OauthClients, Security/SigningKeys,
--     Security/Invitations, Security/Sessions, Security/Principal: the files of these names in
--     authzkit/security, one function for each method; a method that writes returns its table.
--   Service/Http: what a handler raises. Service/Callers: authz_service/dependencies.py.
--     Service/References: authz_service/references.py. Service/Delegations:
--     authz_service/api/delegations.py. Service/Authorize: authz_service/api/authorize.py.
--   Service/Management: authz_service/management.py. Service/Idempotency: `_MemoryIdempotencyStore` and
--     `IdempotencyMiddleware` of authz_service/middleware.py. Service/Limiter: `_SlidingWindowLimiter` of authz_service/middleware.py.
--   Tests: runs on examples, and the theorems at concrete inputs.
--
-- Conventions. Sets are lists read through membership; dictionaries are lists of entries in the
-- order of insertion. Exceptions are values. New ids (`uuid4`) and the time are arguments; one call
-- reads the time once. A text that Python compares or cuts is a native text. Loops are structural
-- recursion, so that no fuel is needed; only the loop of Service/Idempotency that evicts runs on fuel, as
-- much as the cache has entries, and Service/Idempotency/Bounds says why that is enough. PyJWT, `getattr` on objects that are no mapping, and the
-- hook that revalidates critical actions are parameters.
--
-- A call on a table is one transaction; where another caller's may come between two statements, it is
-- an argument. SHA-256, the cryptography of RSA keys, `str.lower` and, in Service/Callers, the resolver of OAuth tokens
-- are parameters. What the handlers ask of the SQL store is a record of functions.
--
-- Not modelled: floats in policy conditions, the text of `ValueError`, the SQL store's own queries and
-- its migrations, the rest of the HTTP service (administration, provisioning, the OAuth endpoints,
-- the other middleware), the identity providers, and the client library.
pub mod Base
pub mod Exceptions
pub mod Policies
pub mod Rbac
pub mod Tenancy
pub mod Storage
pub mod Security
pub mod Guards
pub mod Service
pub mod Tests
