-- ===== src/ProductRuntime.antt =====
-- custom_components/marstek_ble/product_runtime.py: polling commands, the product runtime, the
-- metadata of field updates and the protocol of one product. Of `ProductProfile` in entity.py it
-- has what the runtime uses.
pub mod Safety
pub mod Ready
pub mod Accepts
pub mod Metadata
use Prim.Native.String.{◌++◌ as str_append}
use text.Mathlib.Text.{◌==◌ as str_eq, starts_with}
use ha_marstek_ble.Prelude.{
  ℕ, zero, suc, ◌+◌, ◌/◌, ◌%◌, String, Bool, true, false, not, ◌&&◌, ◌||◌, Option, none, some, List,
  [], ◌∷◌, ◌++◌, map, all, ltb, leb, ◌==◌, if◌then◌else◌, ltb_ℤ, ℤ, pos, pos_part,
}
use ha_marstek_ble.Struct.{Bytes}
use ha_marstek_ble.Result.{Error, value_error, Result, ok, err, ◌>>=◌, ◌>>◌, raise_if}
use ha_marstek_ble.Frame.{Checked, accepted, refused, check_frame}
use ha_marstek_ble.Schema.{PacketSchema, validate_payload}
use ha_marstek_ble.Schema.Tree.{
  Fields, PathElement, DataPath, ParsedField, apply_all, parsed_fields,
}
use ha_marstek_ble.Marstek.{Update, Updates, insert_update, hex_or_none}

-- The delay is in milliseconds.
pub record PollCommand : Type 0 where
  pub command : ℕ
  pub payload : Bytes
  pub delay : ℕ

-- `PollCommand(command, payload, delay)` with `__post_init__`.
unfoldable pub new_poll_command : ℤ → Bytes → ℤ → Result PollCommand
new_poll_command command payload delay = do
  raise_if (ltb_ℤ command (pos 0) || ltb_ℤ (pos 0xFF) command) value_error
  raise_if (ltb_ℤ delay (pos 0)) value_error
  ok (record { command = pos_part command; payload = payload; delay = pos_part delay })

-- A product's cumulative data: a dataclass instance and its `field_updates`.
pub record ProductData : Type 0 where
  pub fields : Fields
  pub field_updates : Updates

-- The paths that a parser reports, if any, and the fields that it leaves: what it has written
-- before an exception stays.
abbrev pub Parsed : Type 0
Parsed = Result (Option (List DataPath)) × Fields

abbrev pub PayloadParser : Type 0
PayloadParser = Bytes → Fields → Parsed

-- `new_fields` is the constructor of the `data_type` and `aliases` its `_metadata_aliases`.
pub record ProductProfile : Type 0 where
  pub product_id : String
  pub new_fields : Fields
  pub aliases : DataPath → List String
  pub packets : List PacketSchema
  pub supported_commands : List ℕ
  pub discovery_prefixes : List String

pub record ProductRuntime : Type 0 where
  pub profile : ProductProfile
  pub fast_poll : List PollCommand
  pub medium_poll : List PollCommand
  pub payload_parsers : List (ℕ × PayloadParser)

abbrev contains : ℕ → List ℕ → Bool
contains a [] = false
contains a (b ∷ bs) = a == b || contains a bs

-- No element is repeated.
abbrev distinct : List ℕ → Bool
distinct [] = true
distinct (a ∷ rest) = not (contains a rest) && distinct rest

abbrev identification_command : ℕ
identification_command = 0x04

-- `ProductRuntime(...)` with `__post_init__`: each command has one packet, parser commands fit a
-- byte, and only supported commands and the identification are polled.
unfoldable pub new_runtime :
    ProductProfile
    → List PollCommand
    → List PollCommand
    → List (ℕ × PayloadParser)
    → Result ProductRuntime
new_runtime profile fast medium parsers = do
  raise_if (not (distinct (map (λ (p : PacketSchema). p.command) profile.packets))) value_error
  raise_if (not (all (λ (p : ℕ × PayloadParser). leb p.0 0xFF) parsers)) value_error
  raise_if
      (not (
        all
          (λ (c : PollCommand).
            c.command == identification_command || contains c.command profile.supported_commands)
          (fast ++ medium)))
      value_error
  ok (record {
    profile = profile;
    fast_poll = fast;
    medium_poll = medium;
    payload_parsers = parsers;
  })

abbrev starts_with_any : String → List String → Bool
starts_with_any name [] = false
starts_with_any name (prefix ∷ prefixes) = starts_with name prefix || starts_with_any name prefixes

-- `matches_name`
unfoldable pub matches_name : ProductRuntime → Option String → Bool
matches_name runtime none = false
matches_name runtime (some name) =
    if str_eq name "" then false else starts_with_any name runtime.profile.discovery_prefixes

-- `create_data`
abbrev pub create_data : ProductRuntime → ProductData
create_data runtime = record { fields = runtime.profile.new_fields; field_updates = [] }

-- `_packets_by_command.get(command)` and `payload_parsers.get(command)`
unfoldable pub packet_of : ℕ → List PacketSchema → Option PacketSchema
packet_of command [] = none
packet_of command (p ∷ packets) = if command == p.command then some p else packet_of command packets

unfoldable pub parser_of : ℕ → List (ℕ × PayloadParser) → Option PayloadParser
parser_of command [] = none
parser_of command ((key, parser) ∷ parsers) =
    if command == key then some parser else parser_of command parsers

abbrev pub written : Result (List ParsedField) → Fields → Parsed
written (ok updates) fs =
    (ok (some (map (λ (u : ParsedField). u.path) updates)), apply_all updates fs)
written (err e) fs = (err e, fs)

-- The length check and what comes after it.
abbrev pub checked : Result (Unit {0}) → Fields → Parsed → Parsed
checked (ok tt) fs rest = rest
checked (err e) fs rest = (err e, fs)

-- The four cases of `parse_payload`: with and without a packet and a parser.
abbrev pub parse_by : Option PacketSchema → Option PayloadParser → Bytes → Fields → Parsed
parse_by none none payload fs = (ok none, fs)
parse_by (some packet) none payload fs =
    checked (validate_payload packet payload) fs (written (parsed_fields payload packet fs) fs)
parse_by none (some parser) payload fs = parser payload fs
parse_by (some packet) (some parser) payload fs =
    checked (validate_payload packet payload) fs (parser payload fs)

-- `parse_payload`, on data that the product's profile created.
unfoldable pub parse_payload : ProductRuntime → ℕ → Bytes → Fields → Parsed
unfolding validate_payload parsed_fields apply_all packet_of parser_of
parse_payload runtime command payload fs =
    parse_by (packet_of command runtime.profile.packets) (parser_of command runtime.payload_parsers)
      payload fs

abbrev digit_text : ℕ → String
digit_text n =
    if n == 0
    then "0"
    else if n == 1
    then "1"
    else if n == 2
    then "2"
    else if n == 3
    then "3"
    else if n == 4
    then "4"
    else if n == 5
    then "5"
    else if n == 6
    then "6"
    else if n == 7
    then "7"
    else if n == 8
    then "8"
    else "9"

number_on : ℕ → ℕ → String
number_on zero n = ""
number_on (suc fuel) n =
    let rest = number_on fuel (n / 10) in
    if ltb n 10 then digit_text n else str_append rest (digit_text (n % 10))

-- `str(part)`
unfoldable pub element_text : PathElement → String
unfolding number_on
element_text (PathElement.name n) = n
element_text (PathElement.index i) = number_on (suc i) i

-- `_path_key`
unfoldable pub path_key : DataPath → String
unfolding element_text
path_key [] = ""
path_key (p ∷ []) = element_text p
path_key (p ∷ q ∷ path) = str_append (element_text p) (str_append "." (path_key (q ∷ path)))

-- `TrackedProductData._metadata_aliases`
unfoldable pub last_alias : DataPath → List String
unfolding element_text
last_alias [] = []
last_alias (p ∷ []) = element_text p ∷ []
last_alias (p ∷ q ∷ path) = last_alias (q ∷ path)

abbrev pub known : String → List String → Bool
known key [] = false
known key (k ∷ keys) = str_eq k key || known key keys

-- `dict.fromkeys(keys)`, in front of which the keys of `seen` stood.
unfoldable pub unique : List String → List String → List String
unique seen [] = []
unique seen (key ∷ keys) =
    let rest = unique (key ∷ seen) keys in
    let skipped = unique seen keys in if known key seen then skipped else key ∷ rest

unfoldable pub insert_all : List String → Update → Updates → Updates
unfolding insert_update
insert_all [] u updates = updates
insert_all (key ∷ keys) u updates = insert_all keys u (insert_update key u updates)

-- `TrackedProductData.mark_field_update` for a path.
unfoldable pub mark_path : (DataPath → List String) → DataPath → ℕ → ℕ → Bytes → Updates → Updates
unfolding insert_all unique path_key
mark_path aliases path command timestamp payload updates =
    insert_all (unique [] (path_key path ∷ aliases path))
      (record { command = command; timestamp = timestamp; payload_hex = hex_or_none payload })
      updates

unfoldable pub mark_paths :
    (DataPath → List String) → List DataPath → ℕ → ℕ → Bytes → Updates → Updates
unfolding mark_path
mark_paths aliases [] command timestamp payload updates = updates
mark_paths aliases (path ∷ paths) command timestamp payload updates =
    mark_paths aliases paths command timestamp payload
      (mark_path aliases path command timestamp payload updates)

abbrev pub noted : (DataPath → List String) → ℕ → Bytes → ℕ → Updates → Parsed → Bool × ProductData
noted aliases command payload timestamp updates (ok none, fs) =
    (false, record { fields = fs; field_updates = updates })
noted aliases command payload timestamp updates (ok (some paths), fs) = (
  true,
  record {
    fields = fs;
    field_updates = mark_paths aliases paths command timestamp payload updates;
  },
)
noted aliases command payload timestamp updates (err e, fs) =
    (false, record { fields = fs; field_updates = updates })

abbrev pub parse_checked : ProductRuntime → Checked → ℕ → ProductData → Bool × ProductData
parse_checked runtime (refused r) timestamp d = (false, d)
parse_checked runtime (accepted command payload) timestamp d =
    noted runtime.profile.aliases command payload timestamp d.field_updates
      (parse_payload runtime command payload d.fields)

-- `ProductProtocol.parse_notification`
unfoldable pub parse_notification : ProductRuntime → Bytes → ℕ → ProductData → Bool × ProductData
unfolding parse_payload check_frame mark_paths
parse_notification runtime frame timestamp d = parse_checked runtime (check_frame frame) timestamp d

-- The notifications of one connection, each with its time.
unfoldable pub receive : ProductRuntime → List (Bytes × ℕ) → ProductData → ProductData
unfolding parse_notification
receive runtime [] d = d
receive runtime ((frame, timestamp) ∷ rest) d =
    receive runtime rest (parse_notification runtime frame timestamp d).1
