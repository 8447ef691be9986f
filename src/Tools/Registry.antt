-- ===== src/Tools/Registry.antt =====
-- internal/tools/registry.go: the registered tools and the tenants' permissions. The mutex makes each
-- operation one step. A tool is its schema and its function, from parameters to a result; a schema has a
-- name of its own.
pub mod Permissions
use agentic_demo.Prelude.{
  ℕ, Bool, true, false, Option, none, some, List, [], ◌∷◌, Text, text_eq, Result, ok, err,
  if◌then◌else◌,
}

pub record ToolSchema : Type 0 where
  pub name : Text
  pub description : Text
  pub parameters : Text

pub record Tool : Type 0 where
  pub schema : ToolSchema
  pub execute : Text → Text

pub data ToolError : Type 0 where
  unknown_tool not_permitted : ToolError

-- `tools` holds each name once. `permissions` is `none` for a tenant that has no map, and a map is
-- false at a tool that it does not hold.
pub record Registry : Type 0 where
  pub tools : List (Text × Tool)
  pub permissions : Text → Option (Text → Bool)

unfoldable pub new_registry : Registry
new_registry = record { tools = []; permissions = λ t. none }

unfoldable pub find_tool : Text → List (Text × Tool) → Option Tool
find_tool name [] = none
find_tool name ((n, t) ∷ ts) = if text_eq n name then some t else find_tool name ts

-- The test `allowed == nil || allowed[name]`.
unfoldable pub permitted : Option (Text → Bool) → Text → Bool
permitted none name = true
permitted (some allowed) name = allowed name

-- The loop of `ListTools`, over the tools in some order.
unfoldable pub listed : Option (Text → Bool) → List (Text × Tool) → List ToolSchema
unfolding permitted
listed allowed [] = []
listed allowed ((n, t) ∷ ts) =
    if permitted allowed n then t.schema ∷ listed allowed ts else listed allowed ts

-- `ListTools`.
unfoldable pub list_tools : Registry → Text → List ToolSchema
unfolding listed
list_tools r tenant = listed (r.permissions tenant) r.tools

abbrev pub run_tool : Bool → Option Tool → Text → Result ToolError Text
run_tool allowed none params = err unknown_tool
run_tool allowed (some t) params = if allowed then ok (t.execute params) else err not_permitted

-- `Invoke`.
unfoldable pub invoke : Registry → Text → Text → Text → Result ToolError Text
unfolding find_tool permitted
invoke r tenant name params =
    run_tool (permitted (r.permissions tenant) name) (find_tool name r.tools) params

-- A write to the map of tools.
unfoldable pub put_tool : Text → Tool → List (Text × Tool) → List (Text × Tool)
put_tool name tool [] = (name, tool) ∷ []
put_tool name tool ((n, t) ∷ ts) =
    if text_eq n name then (n, tool) ∷ ts else (n, t) ∷ put_tool name tool ts

-- `Register`.
unfoldable pub register : Registry → Text → Tool → Registry
unfolding put_tool
register r name tool = record r { tools = put_tool name tool r.tools }

abbrev pub allowed_before : Option (Text → Bool) → Text → Bool
allowed_before none tool = false
allowed_before (some allowed) tool = allowed tool

-- `SetPermission`.
unfoldable pub set_permission : Registry → Text → Text → Bool → Registry
set_permission r tenant name allowed = record r {
  permissions = λ t.
      if text_eq t tenant
      then some (λ tool.
        if text_eq tool name then allowed else allowed_before (r.permissions tenant) tool)
      else r.permissions t;
}
