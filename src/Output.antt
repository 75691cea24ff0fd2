-- ===== src/Output.antt =====
-- What the program prints: the JSON objects of output.rs, and of the structs that derive
-- `Serialize`. A value is what serde_json is handed; its text is a parameter.
pub mod Objects
use atv.Base.{ℕ, String, Bool, Option, none, some, List, [], ◌∷◌}
use atv.Error.{AtvError, kind_name}
use atv.Pairing.{PairOutput}
use atv.Session.Power.{PowerOutput}
use atv.Session.Commands.{StatusOutput, KeysOutput, LaunchOutput}
use atv.Discover.{Device, DiscoverOutput}

mutual
  -- `utf8` is a text by its bytes.
  pub data Value : Type 0 where
    text : String → Value
    utf8 : List ℕ → Value
    flag : Bool → Value
    number : ℕ → Value
    array : Values → Value
    object : Fields → Value

  pub data Values : Type 0 where
    no_values : Values
    value : Value → Values → Values

  pub data Fields : Type 0 where
    no_fields : Fields
    field : String → Value → Fields → Fields

-- The derived `Serialize` writes the fields in the order of the struct.
abbrev pub pair_value : PairOutput → Value
pair_value out = object (
    field "timestamp" (text out.timestamp)
      (field "host" (text out.host) (field "paired" (flag out.paired) no_fields)))

abbrev pub status_value : StatusOutput → Value
status_value out = object (
    field "timestamp" (text out.timestamp)
      (field "host" (text out.host) (field "power" (text out.power) no_fields)))

-- `#[serde(skip_serializing_if = "Option::is_none")]`
abbrev pub wol_field : Option Bool → Fields
wol_field none = no_fields
wol_field (some sent) = field "wol" (flag sent) no_fields

abbrev pub power_value : PowerOutput → Value
power_value out = object (
    field "timestamp" (text out.timestamp) (
      field "host" (text out.host)
        (field "power" (text out.power) (field "changed" (flag out.changed) (wol_field out.wol)))))

abbrev pub texts : List String → Values
texts [] = no_values
texts (s ∷ rest) = value (text s) (texts rest)

abbrev pub keys_value : KeysOutput → Value
keys_value out = object (
    field "timestamp" (text out.timestamp)
      (field "host" (text out.host) (field "keys" (array (texts out.keys)) no_fields)))

abbrev pub launch_value : LaunchOutput → Value
launch_value out = object (
    field "timestamp" (text out.timestamp)
      (field "host" (text out.host) (field "app_link" (utf8 out.app_link) no_fields)))

abbrev pub device_value : Device → Value
device_value d = object (
    field "name" (text d.name)
      (field "host" (text d.host) (field "port" (number d.port) no_fields)))

abbrev pub device_values : List Device → Values
device_values [] = no_values
device_values (d ∷ rest) = value (device_value d) (device_values rest)

abbrev pub discover_value : DiscoverOutput → Value
discover_value out = object (
    field "timestamp" (text out.timestamp)
      (field "devices" (array (device_values out.devices)) no_fields))

-- What `emit` can be given.
pub data Output : Type 0 where
  paired : PairOutput → Output
  power_state : StatusOutput → Output
  power_set : PowerOutput → Output
  keys_sent : KeysOutput → Output
  launched : LaunchOutput → Output
  discovered : DiscoverOutput → Output

unfoldable pub output_value : Output → Value
output_value (paired out) = pair_value out
output_value (power_state out) = status_value out
output_value (power_set out) = power_value out
output_value (keys_sent out) = keys_value out
output_value (launched out) = launch_value out
output_value (discovered out) = discover_value out

-- `ErrorEnvelope` around an `AtvError`.
unfoldable pub error_value : AtvError → Value
error_value e = object (
    field "error"
      (object (field "kind" (text (kind_name e.kind)) (field "detail" (text e.detail) no_fields)))
      no_fields)

-- `serde_json::to_string`, which does not fail on such values.
pub record Json : Type 0 where
  pub to_string : Value → String

abbrev pub of_output : Json → Output → String
of_output json out = json.to_string (output_value out)

-- `AtvError::to_json`
abbrev pub of_error : Json → AtvError → String
of_error json e = json.to_string (error_value e)
