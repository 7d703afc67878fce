-- ===== src/Prelude/Json.antt =====
-- JSON values as Python holds them after parsing: `dict[str, Any]`, in insertion order.
use Prim.Native.String.{String}
use mathlib.Core.Bool.{Bool, true, false}
use mathlib.Core.Option.{Option, none, some}
use superset_hardening_loop.Prelude.Tests.{if◌then◌else◌}
use superset_hardening_loop.Prelude.Equality.{string_eq, ◌==◌}

mutual
  pub data Json : Type 0 where
    null : Json
    boolean : Bool → Json
    -- A number by its literal.
    number : String → Json
    text : String → Json
    array : Items → Json
    object : Fields → Json

  pub data Items : Type 0 where
    nil : Items
    cons : Json → Items → Items

  pub data Fields : Type 0 where
    end : Fields
    field : String → Json → Fields → Fields

-- `d.get(key)` on a dictionary.
abbrev pub get : Fields → String → Option Json
get Fields.end k = none
get (Fields.field j v d) k = if j == k then some v else get d k

-- `value if isinstance(value, str) else None`, on the result of `get`.
abbrev pub as_text : Option Json → Option String
as_text (some (Json.text t)) = some t
as_text _ = none

-- `not d`
abbrev pub is_empty_dict : Fields → Bool
is_empty_dict Fields.end = true
is_empty_dict (Fields.field k v d) = false
