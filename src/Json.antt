-- ===== src/Json.antt =====
-- The JSON values that the control plane stores: `dict[str, object]` as decoded from jsonb. Floats
-- are left out, since the program computes none.
pub mod Dumps
use bff.Prelude.{ℤ, Bool, List, [], ◌∷◌, Option, none, some, if◌then◌else◌}
use bff.Text.{Text, text_eq}

mutual
  pub data Json : Type 0 where
    null : Json
    bool : Bool → Json
    int : ℤ → Json
    str : Text → Json
    arr : Items → Json
    obj : Fields → Json

  pub data Items : Type 0 where
    nil : Items
    cons : Json → Items → Items

  pub data Fields : Type 0 where
    end : Fields
    field : Text → Json → Fields → Fields

-- `JsonObject`
abbrev pub JsonObject : Type 0
JsonObject = Fields

abbrev pub items : List Json → Items
items [] = nil
items (x ∷ xs) = cons x (items xs)

-- `value.get(name)`, where a missing name and `None` are told apart
abbrev pub member : Text → JsonObject → Option Json
member name end = none
member name (field key value rest) = if text_eq key name then some value else member name rest
