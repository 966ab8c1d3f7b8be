-- ===== src/Event/Json.antt =====
-- encoding/json: the values, and json.RawMessage, which is a text that may hold one.
use event_streaming_and_audi.Prelude.{String, Bool}

-- A number is kept as its literal.
mutual
  pub data Json : Type 0 where
    null : Json
    bool : Bool → Json
    num : String → Json
    str : String → Json
    arr : Items → Json
    obj : Fields → Json

  pub data Items : Type 0 where
    nil : Items
    cons : Json → Items → Items

  pub data Fields : Type 0 where
    end : Fields
    field : String → Json → Fields → Fields

-- `empty` has no bytes, `encoded v` is the text that json.Marshal writes for `v`, and `malformed`
-- stands for bytes that are no JSON.
pub data RawMessage : Type 0 where
  empty : RawMessage
  encoded : Json → RawMessage
  malformed : String → RawMessage
