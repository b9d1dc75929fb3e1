-- ===== src/Condition/Value.antt =====
-- `serde_json::Value`, as far as conditions read it. An object keeps the order in which its map is
-- iterated. A number is a value of the type `F` of floats.
use strix.Base.{Bool, Option, none, some, Text}

mutual
  pub data Json (F : Type 0) : Type 0 where
    null : Json F
    bool : Bool → Json F
    number : F → Json F
    text : Text → Json F
    array : Items F → Json F
    object : Fields F → Json F

  pub data Items (F : Type 0) : Type 0 where
    nil : Items F
    item : Json F → Items F → Items F

  pub data Fields (F : Type 0) : Type 0 where
    end : Fields F
    field : Text → Json F → Fields F → Fields F

unfoldable pub as_object : {F : Type 0} → Json F → Option (Fields F)
as_object (object fs) = some fs
as_object _ = none

unfoldable pub as_str : {F : Type 0} → Json F → Option Text
as_str (text s) = some s
as_str _ = none

unfoldable pub as_bool : {F : Type 0} → Json F → Option Bool
as_bool (bool b) = some b
as_bool _ = none

unfoldable pub as_f64 : {F : Type 0} → Json F → Option F
as_f64 (number x) = some x
as_f64 _ = none
