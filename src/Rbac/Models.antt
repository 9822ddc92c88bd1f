-- ===== src/Rbac/Models.antt =====
-- authzkit/rbac/models.py: permissions and roles. A name is `<resource>.<action>`, and the
-- resource may have dots of its own.
pub mod Names
use Prim.Native.Char.{Char, code}
use Prim.Native.String.{◌++◌}
use authz.Base.{
  String, Bool, false, not, Option, none, some, Result, ok, err, ◌==◌, nat_eq, string_eq,
  if◌then◌else◌,
}

-- f"{resource}.{action}"
unfoldable pub permission_name : String → String → String
permission_name resource action = resource ++ ("." ++ action)

pub data RoleScope : Type 0 where
  platform application tenant agent : RoleScope

pub record Permission : Type 0 where
  pub id : String
  pub name : String
  pub resource : String
  pub action : String
  pub application_id : Option String
  pub description : Option String
  pub deprecated : Bool
  pub critical : Bool

abbrev pub active : Permission → Bool
active p = not p.deprecated

pub record Role : Type 0 where
  pub id : String
  pub name : String
  pub scope : RoleScope
  pub tenant_id : Option String
  pub application_id : Option String
  pub description : Option String
  pub is_system : Bool
  pub agent_id : Option String

-- `name.rpartition(".")`: what stands before and behind the last dot; none without a dot.
abbrev before : Char → Option (String × String) → Option (String × String)
before c none = none
before c (some (resource, action)) = some (String.◌∷◌ c resource, action)

abbrev at_dot : Bool → String → Option (String × String) → Option (String × String)
at_dot dot rest none = if dot then some ("", rest) else none
at_dot dot rest (some p) = some p

unfoldable pub rpartition : String → Option (String × String)
rpartition String.[] = none
rpartition (String.◌∷◌ c s) = let later = rpartition s in at_dot (code c == b'.') s (before c later)

pub data NameError : Type 0 where
  no_dot : String → NameError

abbrev pub or_name : Option String → String → String
or_name none name = name
or_name (some id) name = if id == "" then name else id

-- `id or name`
abbrev pub named : String → Option String → Option String → String → String → Permission
named name id application_id resource action = record {
  id = or_name id name;
  name = name;
  resource = resource;
  action = action;
  application_id = application_id;
  description = none;
  deprecated = false;
  critical = false;
}

-- `Permission.from_name`
abbrev parts_of :
    String → Option String → Option String → Option (String × String) → Result NameError Permission
parts_of name id application_id none = err (no_dot name)
parts_of name id application_id (some (resource, action)) =
    ok (named name id application_id resource action)

unfoldable pub from_name : String → Option String → Option String → Result NameError Permission
from_name name id application_id = parts_of name id application_id (rpartition name)
