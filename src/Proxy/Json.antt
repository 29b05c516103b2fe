-- ===== src/Proxy/Json.antt =====
-- Decoded JSON, as encoding/json unmarshals it into `interface{}`. The order of an object's fields
-- is the order in which a `range` over the Go map meets them. A number keeps its text.
use servicegateway.Prelude.{String, Bool, Option}

mutual
  pub data Json : Type 0 where
    null : Json
    bool : Bool → Json
    num : String → Json
    str : String → Json
    arr : Items → Json
    obj : Fields → Json

  pub data Items : Type 0 where
    nil : Items
    cons : Json → Items → Items

  pub data Fields : Type 0 where
    end : Fields
    field : String → Json → Fields → Fields

-- `json.Unmarshal` into an `interface{}` and `json.Marshal`; `none` is an error.
pub record JsonLib : Type 0 where
  pub unmarshal : String → Option Json
  pub marshal : Json → Option String
