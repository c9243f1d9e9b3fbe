-- ===== src/Orchestration/Json.antt =====
-- `serde_json::Value` as src/orchestration/message_box.rs reads it. `N` is the type of JSON numbers.
-- An object keeps its members in the order of their keys, as serde_json's map does.
use void_control.Base.{Bool, Option, none, some, String, str_eq, if◌then◌else◌}

mutual
  pub data Value (N : Type 0) : Type 0 where
    null : Value N
    bool : Bool → Value N
    number : N → Value N
    string : String → Value N
    array : Items N → Value N
    object : Members N → Value N

  pub data Items (N : Type 0) : Type 0 where
    no_items : Items N
    item : Value N → Items N → Items N

  pub data Members (N : Type 0) : Type 0 where
    no_members : Members N
    member : String → Value N → Members N → Members N

module _ {N : Type 0} where
  find_member : String → Members N → Option (Value N)
  find_member key no_members = none
  find_member key (member k v ms) = if str_eq k key then some v else find_member key ms

  -- `Value::get` with a text.
  unfoldable pub get_member : String → Value N → Option (Value N)
  unfolding find_member
  get_member key (object ms) = find_member key ms
  get_member key _ = none

  text_of : Value N → Option String
  text_of (string s) = some s
  text_of _ = none

  -- `.and_then(Value::as_str)`
  unfoldable pub as_text : Option (Value N) → Option String
  unfolding text_of
  as_text none = none
  as_text (some v) = text_of v
