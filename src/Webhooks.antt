-- ===== src/Webhooks.antt =====
-- Inbound webhooks: internal/webhookengine, internal/server/webhook_handler.go and the stores of
-- internal/dashboard that they use. This file has the decoded payload.
pub mod Mapping
pub mod Store
pub mod Delivery
pub mod Manage
use zeep_orbit.Prelude.{ℕ, zero, suc, String, Bool, Option, none, some, List, ◌==◌, if◌then◌else◌}
use zeep_orbit.Query
use zeep_orbit.Query.{Number, Value}

-- `any` as encoding/json decodes it: `map[string]any` is `obj`, `[]any` is `arr`.
mutual
  pub data Json : Type 0 where
    null : Json
    bool : Bool → Json
    num : Number → Json
    str : String → Json
    arr : Items → Json
    obj : Fields → Json

  pub data Items : Type 0 where
    no_items : Items
    item : Json → Items → Items

  pub data Fields : Type 0 where
    no_fields : Fields
    field : String → Json → Fields → Fields

-- `v, ok := node[segment]`
unfoldable pub field_at : String → Fields → Option Json
field_at name no_fields = none
field_at name (field key v rest) = if key == name then some v else field_at name rest

-- `node[idx]`, which is out of range from `len(node)` on.
unfoldable pub item_at : ℕ → Items → Option Json
item_at i no_items = none
item_at zero (item v rest) = some v
item_at (suc i) (item v rest) = item_at i rest

-- The value as the query builder takes it; `marshal` is `json.Marshal`.
unfoldable pub to_value : (Json → String) → Json → Value
to_value marshal null = Query.nil
to_value marshal (bool b) = Query.boolean b
to_value marshal (num f) = Query.number f
to_value marshal (str s) = Query.text s
to_value marshal (arr xs) = Query.composite (marshal (arr xs))
to_value marshal (obj fs) = Query.composite (marshal (obj fs))
