-- ===== src/Guards/Tools/Laws.antt =====
-- authzkit/tools/guard.py and authzkit/tools/registry.py: the guard's answers, and registration.
use authz.Base.{
  String, true, ◌≡◌, ◌↔◌, some, List, ok, contains, contains-keep, pair_eq, string_eq, ◌==◌, arith,
  lookup-insert, if◌then◌else◌,
}
use authz.Rbac.Models.{permission_name}
use authz.Guards.Tools.{
  ToolGuard, require, filter_allowed, ToolDescriptor, ToolRegistry, register, get,
}

-- `filter_allowed` keeps exactly the checks that `require` lets pass.
filter_allowed-require :
    (g : ToolGuard) (resource action : String) (checks : List (String × String))
    → (contains (resource, action) (filter_allowed g checks) ≡ true)
      ↔ ((contains (resource, action) checks ≡ true) × (require g resource action ≡ ok tt))
unfolding filter_allowed require
filter_allowed-require g resource action checks = ground (
  arith,
  contains-keep {A = String × String} (resource, action)
      (λ c. contains (permission_name c.0 c.1) g.permissions) checks,
)

-- After `register`, `get` finds the new descriptor under its namespace and name, and under other
-- keys what was there.
get-register :
    (d : ToolDescriptor) (r : ToolRegistry) (namespace name : String)
    → get (register d r) namespace name ≡ (
        if permission_name d.namespace d.name == permission_name namespace name
        then some d
        else get r namespace name)
unfolding get register
get-register d r namespace name =
    lookup-insert (permission_name d.namespace d.name) (permission_name namespace name) d r.tools
