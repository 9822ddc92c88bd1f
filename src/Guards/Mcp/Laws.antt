-- ===== src/Guards/Mcp/Laws.antt =====
-- authzkit/mcp/guard.py: listing tools, and allowing them.
use Prim.Native.Char.{code}
use Prim.Native.String.{◌++◌}
use text.Mathlib.TextEquality.{Char-path}
use text.Mathlib.TextLemmas.{nil-append, cons-append}
use authz.Base.{
  String, ◌≡◌, refl, some, List, [], ◌∷◌, contains, ◌==◌, nat_eq, string_eq, eq_iff, arith,
  Bool-cases, Option-cases, inl, inr,
}
use authz.Guards.Mcp.{
  McpGuard, mcp_permission, prefix_of, is_allowed, strip_prefix, stripped, allowed_tools,
}

strip_prefix-append :
    (prefix action : String) → strip_prefix prefix (prefix ++ action) ≡ some action
unfolding strip_prefix
strip_prefix-append String.[] action = rw nil-append refl
strip_prefix-append (String.◌∷◌ c s) action =
    rw cons-append (ground (arith, strip_prefix-append s action))

append-strip_prefix :
    (prefix text action : String) → strip_prefix prefix text ≡ some action → prefix ++ action ≡ text
unfolding strip_prefix
append-strip_prefix String.[] text action h = rw nil-append (ground arith)
append-strip_prefix (String.◌∷◌ c s) String.[] action h = ground arith
append-strip_prefix (String.◌∷◌ c s) (String.◌∷◌ d t) action h =
    elim (Bool-cases (code c == code d)) [
      | inr differ ↦ ground arith
      | inl same ↦
          rw
            (
              cons-append,
              append-strip_prefix s t action (ground arith),
              Char-path c d (((nat_eq).beq_iff (code c) (code d)).0 same),
            )
            refl
    ]

contains-stripped :
    (prefix action : String) (ps : List String)
    → contains action (stripped prefix ps) ≡ contains (prefix ++ action) ps
unfolding stripped contains
contains-stripped prefix action [] = refl
contains-stripped prefix action (p ∷ ps) = elim (Option-cases (strip_prefix prefix p)) [
  | inl other ↦ ground (
    arith,
    contains-stripped prefix action ps,
    eq_iff (prefix ++ action) p,
    strip_prefix-append prefix action,
  )
  | inr (a, found) ↦ ground (
    arith,
    contains-stripped prefix action ps,
    eq_iff (prefix ++ action) p,
    eq_iff action a,
    strip_prefix-append prefix action,
    append-strip_prefix prefix p a,
  )
]

-- `allowed_tools` of a server lists exactly the actions that `is_allowed` allows there.
allowed_tools-is_allowed :
    (g : McpGuard) (server action : String)
    → contains action (allowed_tools g server) ≡ is_allowed g server action
unfolding allowed_tools is_allowed mcp_permission
allowed_tools-is_allowed g server action = contains-stripped (prefix_of server) action g.permissions
