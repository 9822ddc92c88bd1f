-- ===== src/Guards/Mcp.antt =====
-- authzkit/mcp/guard.py and authzkit/mcp/models.py.
pub mod Laws
use Prim.Native.Char.{code}
use Prim.Native.String.{◌++◌}
use authz.Base.{
  String, Bool, Option, none, some, List, [], ◌∷◌, map, Result, ok, err, guard, contains, ◌==◌,
  nat_eq, string_eq, if◌then◌else◌,
}
use authz.Exceptions.{AuthzError, permission_denied}

pub record McpTool : Type 0 where
  pub server : String
  pub action : String
  pub description : Option String

pub record McpServer : Type 0 where
  pub name : String
  pub tools : List McpTool
  pub description : Option String

-- f"{MCP_NAMESPACE}.{server}."
abbrev pub prefix_of : String → String
prefix_of server = "mcp." ++ (server ++ ".")

-- f"{MCP_NAMESPACE}.{server}.{action}"
unfoldable pub mcp_permission : (server action : String) → String
mcp_permission server action = prefix_of server ++ action

-- `MCPTool.permission` and `MCPServer.permissions`
unfoldable pub permission : McpTool → String
permission t = mcp_permission t.server t.action

unfoldable pub server_permissions : McpServer → List String
server_permissions s = map permission s.tools

pub record McpGuard : Type 0 where
  pub permissions : List String

unfoldable pub is_allowed : McpGuard → (server action : String) → Bool
is_allowed g server action = contains (mcp_permission server action) g.permissions

unfoldable pub require : McpGuard → (server action : String) → Result AuthzError (Unit {0})
require g server action = guard (contains (mcp_permission server action) g.permissions) (
    permission_denied (mcp_permission server action)
      ("Permission denied: " ++ mcp_permission server action))

-- `text[len(prefix):]` if `text.startswith(prefix)`
unfoldable pub strip_prefix : (prefix text : String) → Option String
strip_prefix String.[] text = some text
strip_prefix (String.◌∷◌ c s) String.[] = none
strip_prefix (String.◌∷◌ c s) (String.◌∷◌ d t) =
    let rest = strip_prefix s t in if code c == code d then rest else none

-- `allowed_tools`, over a list of permissions
unfoldable pub stripped : (prefix : String) → List String → List String
stripped prefix [] = []
stripped prefix (p ∷ ps) =
    let rest = stripped prefix ps in
    elim (strip_prefix prefix p) [ none ↦ rest | some action ↦ action ∷ rest ]

unfoldable pub allowed_tools : McpGuard → (server : String) → List String
allowed_tools g server = stripped (prefix_of server) g.permissions
