-- ===== src/Guards/Tools.antt =====
-- authzkit/tools/guard.py and authzkit/tools/registry.py.
pub mod Laws
use Prim.Native.String.{◌++◌}
use authz.Base.{
  String, Bool, Option, List, Result, ok, err, guard, contains, keep, Dict, lookup, insert, values,
  string_eq,
}
use authz.Exceptions.{AuthzError, permission_denied}
use authz.Rbac.Models.{permission_name}

pub record ToolGuard : Type 0 where
  pub permissions : List String

unfoldable pub is_allowed : ToolGuard → (resource action : String) → Bool
is_allowed g resource action = contains (permission_name resource action) g.permissions

unfoldable pub require : ToolGuard → (resource action : String) → Result AuthzError (Unit {0})
require g resource action = guard (contains (permission_name resource action) g.permissions) (
    permission_denied (permission_name resource action)
      ("Permission denied: " ++ permission_name resource action))

unfoldable pub filter_allowed : ToolGuard → List (String × String) → List (String × String)
filter_allowed g checks =
    keep (λ (c : String × String). contains (permission_name c.0 c.1) g.permissions) checks

pub record ToolDescriptor : Type 0 where
  pub name : String
  pub namespace : String
  pub actions : List String
  pub description : Option String

unfoldable pub permission_for : ToolDescriptor → String → String
permission_for d action = permission_name (permission_name d.namespace d.name) action

pub record ToolRegistry : Type 0 where
  pub tools : Dict String ToolDescriptor

unfoldable pub register : ToolDescriptor → ToolRegistry → ToolRegistry
register d r = record { tools = insert (permission_name d.namespace d.name) d r.tools }

unfoldable pub get : ToolRegistry → (namespace name : String) → Option ToolDescriptor
get r namespace name = lookup (permission_name namespace name) r.tools

-- `all`
unfoldable pub descriptors : ToolRegistry → List ToolDescriptor
descriptors r = values r.tools
