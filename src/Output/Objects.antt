-- ===== src/Output/Objects.antt =====
-- A reader of what is printed, by the names of the fields, and that it gets back what was meant.
use atv.Base.{
  ℕ, ◌≡◌, refl, ap, String, Bool, Option, none, some, List, [], ◌∷◌, str_eq, if◌then◌else◌,
}
use atv.Error.{
  AtvError, ErrorKind, kind_name, unreachable, not_paired, auth_rejected, pairing_failed,
  protocol_error, config_io,
}
use atv.Session.Power.{PowerOutput}
use atv.Discover.{Device}
use atv.Output.{
  Value, Values, Fields, text, utf8, flag, number, array, object, no_values, value, no_fields,
  field, texts, device_values, Output, output_value, error_value, paired, power_state, power_set,
  power_value, keys_sent, launched, discovered,
}

infixl 5 ◌>>=◌
abbrev ◌>>=◌ : {A B : Type 0} → Option A → (A → Option B) → Option B
none >>= f = none
some a >>= f = f a

-- The value of a field.
abbrev get : String → Fields → Option Value
get name no_fields = none
get name (field key v rest) = if str_eq name key then some v else get name rest

abbrev fields_of : Value → Fields
fields_of (object fields) = fields
fields_of _ = no_fields

abbrev as_text : Value → Option String
as_text (text s) = some s
as_text _ = none

abbrev as_flag : Value → Option Bool
as_flag (flag b) = some b
as_flag _ = none

abbrev as_utf8 : Value → Option (List ℕ)
as_utf8 (utf8 bytes) = some bytes
as_utf8 _ = none

abbrev as_number : Value → Option ℕ
as_number (number n) = some n
as_number _ = none

abbrev as_array : Value → Option Values
as_array (array vs) = some vs
as_array _ = none

abbrev get_text : String → Fields → Option String
get_text name fields = get name fields >>= as_text

-- A field that may be left out.
abbrev optional_flag : Option Value → Option (Option Bool)
optional_flag none = some none
optional_flag (some v) = as_flag v >>= λ b. some (some b)

read_texts : Values → Option (List String)
read_texts no_values = some []
read_texts (value v rest) = do s ← as_text v; more ← read_texts rest; some (s ∷ more)

read_device : Value → Option Device
read_device v = do
  let fields = fields_of v
  name ← get_text "name" fields
  host ← get_text "host" fields
  port ← get "port" fields >>= as_number
  some (record { name = name; host = host; port = port })

read_devices : Values → Option (List Device)
unfolding read_device
read_devices no_values = some []
read_devices (value v rest) = do d ← read_device v; more ← read_devices rest; some (d ∷ more)

-- The object of a command on a TV, by the fields that it has.
by_field : String → String → Fields → Option Output
unfolding read_texts
by_field at host fields = elim (get "paired" fields) [
  | some v ↦ do b ← as_flag v; some (paired (record { timestamp = at; host = host; paired = b }))
  | none ↦ elim (get "keys" fields) [
    | some v ↦ do
      keys ← as_array v >>= read_texts
      some (keys_sent (record { timestamp = at; host = host; keys = keys }))
    | none ↦ elim (get "app_link" fields) [
      | some v ↦ do
        link ← as_utf8 v
        some (launched (record { timestamp = at; host = host; app_link = link }))
      | none ↦ do
        power ← get_text "power" fields
        elim (get "changed" fields) [
          | none ↦ some (power_state (record { timestamp = at; host = host; power = power }))
          | some v ↦ do
            changed ← as_flag v
            wol ← optional_flag (get "wol" fields)
            some (
                power_set (record {
                  timestamp = at;
                  host = host;
                  power = power;
                  changed = changed;
                  wol = wol;
                }))
        ]
    ]
  ]
]

pub read_output : Value → Option Output
unfolding read_devices by_field
read_output v = do
  let fields = fields_of v
  at ← get_text "timestamp" fields
  elim (get "devices" fields) [
    | some d ↦ do
      devices ← as_array d >>= read_devices
      some (discovered (record { timestamp = at; devices = devices }))
    | none ↦ do host ← get_text "host" fields; by_field at host fields
  ]

read_kind : String → Option ErrorKind
read_kind name =
    if str_eq name "unreachable"
    then some unreachable
    else if str_eq name "not_paired"
    then some not_paired
    else if str_eq name "auth_rejected"
    then some auth_rejected
    else if str_eq name "pairing_failed"
    then some pairing_failed
    else if str_eq name "protocol_error"
    then some protocol_error
    else if str_eq name "config_io"
    then some config_io
    else none

pub read_error : Value → Option AtvError
unfolding read_kind
read_error v = do
  inner ← get "error" (fields_of v)
  kind ← get_text "kind" (fields_of inner) >>= read_kind
  detail ← get_text "detail" (fields_of inner)
  some (record { kind = kind; detail = detail })

read_texts-texts : (keys : List String) → read_texts (texts keys) ≡ some keys
unfolding read_texts
read_texts-texts [] = refl
read_texts-texts (s ∷ keys) =
    ap (λ (o : Option (List String)). o >>= λ more. some (s ∷ more)) (read_texts-texts keys)

read_devices-device_values : (ds : List Device) → read_devices (device_values ds) ≡ some ds
unfolding read_devices
read_devices-device_values [] = refl
read_devices-device_values (d ∷ ds) =
    ap (λ (o : Option (List Device)). o >>= λ more. some (d ∷ more)) (read_devices-device_values ds)

abbrev power_output : String → String → String → Bool → Option Bool → PowerOutput
power_output at host power changed wol = record {
  timestamp = at;
  host = host;
  power = power;
  changed = changed;
  wol = wol;
}

read_output-power_value :
    (at host power : String) (changed : Bool) (wol : Option Bool)
    → read_output (power_value (power_output at host power changed wol))
      ≡ some (power_set (power_output at host power changed wol))
unfolding read_output
read_output-power_value at host power changed none = refl
read_output-power_value at host power changed (some b) = refl

read_kind-kind_name : (k : ErrorKind) → read_kind (kind_name k) ≡ some k
unfolding read_kind kind_name
read_kind-kind_name unreachable = refl
read_kind-kind_name not_paired = refl
read_kind-kind_name auth_rejected = refl
read_kind-kind_name pairing_failed = refl
read_kind-kind_name protocol_error = refl
read_kind-kind_name config_io = refl

-- A reader that goes by the names of the fields gets every output back from what is printed for it.
pub read_output-output_value : (out : Output) → read_output (output_value out) ≡ some out
unfolding read_output output_value
read_output-output_value (paired out) = refl
read_output-output_value (power_state out) = refl
read_output-output_value (power_set out) =
    read_output-power_value out.timestamp out.host out.power out.changed out.wol
read_output-output_value (keys_sent out) =
    ap (λ (o : Option (List String)). o >>= λ keys. some (keys_sent (record out { keys = keys })))
      (read_texts-texts out.keys)
read_output-output_value (launched out) = refl
read_output-output_value (discovered out) =
    ap
      (λ (o : Option (List Device)).
        o >>= λ devices. some (discovered (record out { devices = devices })))
      (read_devices-device_values out.devices)

-- And every error, so that the kinds have different names.
pub read_error-error_value : (e : AtvError) → read_error (error_value e) ≡ some e
unfolding read_error error_value kind_name
read_error-error_value e =
    ap (λ (o : Option ErrorKind). o >>= λ kind. some (record { kind = kind; detail = e.detail }))
      (read_kind-kind_name e.kind)
