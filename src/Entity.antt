-- ===== src/Entity.antt =====
-- custom_components/marstek_ble/entity.py: entity and device specifications, the bindings of a
-- plan, and the access to values by path. A description keeps the two attributes that the code
-- reads.
pub mod Plan
pub mod Expansion
pub mod Sections
pub mod Report
pub mod Increase
pub mod Resolve
pub mod Counted
pub mod Presence
pub mod Live
pub mod Place
pub mod Placed
pub mod Manager
pub mod Sync
use Prim.Native.String.{◌++◌ as str_append}
use package.text.Mathlib.Text.{◌==◌ as str_eq}
use ha_marstek_ble.Prelude.{
  ℕ, zero, suc, ◌+◌, ◌/◌, min, String, Bool, true, false, Option, none, some, List, [], ◌∷◌,
  get_elem?, length, ltb, if◌then◌else◌, ℤ, pos, negsuc, pos_part,
}
use ha_marstek_ble.Result.{
  value_error, type_error, index_error, attribute_error, Result, ok, err, ◌>>=◌, or_raise,
}
use ha_marstek_ble.Text.Numerals.{parse_int}
use ha_marstek_ble.Converter.{Value, null, bool, int, real, text, ints, reals}
use ha_marstek_ble.Schema.Tree.{PathElement, DataPath}

-- `EntityPlatform`
pub data EntityPlatform : Type 0 where
  sensor binary_sensor : EntityPlatform

-- `SensorEntityDescription` or `BinarySensorEntityDescription`
pub record EntityDescription : Type 0 where
  pub key : String
  pub name : Option String

pub record FieldEntitySpec : Type 0 where
  pub platform : EntityPlatform
  pub description : EntityDescription

pub record IndexedEntitySpec : Type 0 where
  pub platform : EntityPlatform
  pub count : ℕ
  pub description_factory : ℕ → EntityDescription

pub record RepeatedChildDeviceSpec : Type 0 where
  pub key_prefix : String
  pub model : String
  pub name_factory : ℕ → String
  pub identifier_factory : ℕ → String
  pub model_id : Option String

-- `foreign` is an object of another class.
pub data ChildDevice : Type 0 where
  absent foreign : ChildDevice
  child : RepeatedChildDeviceSpec → ChildDevice

-- The part of `RepeatedSectionSpec` that entities come from.
pub record RepeatedSectionSpec : Type 0 where
  pub count : ℕ
  pub active_count_attribute : Option String
  pub child_device : ChildDevice
  pub item_name_factory : Option (ℕ → String)

-- The metadata of a dataclass field: `data_field.name`, `get_field_entities(data_field)`,
-- `get_indexed_entities(data_field)` and `get_repeated_section(data_field)`.
pub record DataField : Type 0 where
  pub name : String
  pub field_entities : List FieldEntitySpec
  pub indexed_entities : List IndexedEntitySpec
  pub repeated_section : Option RepeatedSectionSpec

mutual
  -- A Python value: a dataclass instance, a list that holds some, or another.
  pub data Content : Type 0 where
    plain : Value → Content
    nested : Instance → Content
    listed : Items → Content

  -- The fields of an instance in the order of `fields(current)`.
  pub data Instance : Type 0 where
    end : Instance
    attribute : DataField → Content → Instance → Instance

  pub data Items : Type 0 where
    stop : Items
    item : Content → Items → Items

pub record ProductDeviceSpec : Type 0 where
  pub manufacturer : String
  pub model : String
  pub model_id : Option String

pub record DeviceBinding : Type 0 where
  pub key : String
  pub name : Option String
  pub manufacturer : String
  pub model : String
  pub model_id : Option String
  pub identifier_suffix : Option String
  pub parent_key : Option String
  pub index : Option ℕ

-- `DeviceBinding.identifier`
unfoldable pub identifier : DeviceBinding → String → String
identifier device main_identifier = with_suffix device.identifier_suffix
  where
    with_suffix : Option String → String
    with_suffix none = main_identifier
    with_suffix (some suffix) = str_append main_identifier (str_append ":" suffix)

-- `getattr(current, name)`
unfoldable pub get_attribute : Instance → String → Result Content
get_attribute end name = err attribute_error
get_attribute (attribute data_field value rest) name =
    let later = get_attribute rest name in if str_eq data_field.name name then ok value else later

abbrev pub item_at : Items → ℕ → Option Content
item_at stop i = none
item_at (item value rest) zero = some value
item_at (item value rest) (suc i) = item_at rest i

abbrev pub item_count : Items → ℕ
item_count stop = 0
item_count (item value rest) = suc (item_count rest)

abbrev pub real_value : Option (ℤ × ℕ) → Content
real_value none = plain null
real_value (some (n, d)) = plain (real n d)

-- `value[part]`
unfoldable pub subscript : Content → ℕ → Result Content
subscript (listed items) i = or_raise (item_at items i) index_error
subscript (nested fs) i = err type_error
subscript (plain null) i = err type_error
subscript (plain (bool b)) i = err type_error
subscript (plain (int z)) i = err type_error
subscript (plain (real n d)) i = err type_error
subscript (plain (text t)) i = do
  c ← or_raise (get_elem? t i) index_error
  ok (plain (text (c ∷ [])))
subscript (plain (ints vs)) i = do v ← or_raise (get_elem? vs i) index_error; ok (plain (int v))
subscript (plain (reals vs)) i = do v ← or_raise (get_elem? vs i) index_error; ok (real_value v)

abbrev attribute_of : Content → String → Result Content
attribute_of (nested fs) name = get_attribute fs name
attribute_of (plain v) name = err attribute_error
attribute_of (listed items) name = err attribute_error

abbrev pub step : Content → PathElement → Result Content
step value (PathElement.name n) = attribute_of value n
step value (PathElement.index i) = subscript value i

-- `_resolve`
unfoldable pub resolve : Content → DataPath → Result Content
unfolding get_attribute subscript
resolve value [] = ok value
resolve value (part ∷ path) = do next ← step value part; resolve next path

-- `len(value)`
unfoldable pub len : Content → Result ℕ
len (listed items) = ok (item_count items)
len (nested fs) = err type_error
len (plain null) = err type_error
len (plain (bool b)) = err type_error
len (plain (int z)) = err type_error
len (plain (real n d)) = err type_error
len (plain (text t)) = ok (length t)
len (plain (ints vs)) = ok (length vs)
len (plain (reals vs)) = ok (length vs)

-- `max(0, min(z, maximum))`
abbrev pub clamp : ℤ → ℕ → ℕ
clamp z maximum = min (pos_part z) maximum

abbrev negated : ℕ → ℤ
negated zero = pos 0
negated (suc n) = negsuc n

abbrev pub truncated : ℤ → ℕ → ℤ
truncated (pos n) d = pos (n / d)
truncated (negsuc n) d = negated (suc n / d)

-- `_count`, where `int(value)` rounds a float towards 0.
unfoldable pub count : Content → ℕ → Result ℕ
unfolding parse_int
count (plain null) maximum = ok 0
count (plain (bool true)) maximum = ok (clamp (pos 1) maximum)
count (plain (bool false)) maximum = ok 0
count (plain (int z)) maximum = ok (clamp z maximum)
count (plain (real n d)) maximum = ok (clamp (truncated n d) maximum)
count (plain (text t)) maximum = do z ← or_raise (parse_int t) value_error; ok (clamp z maximum)
count (plain (ints vs)) maximum = err type_error
count (plain (reals vs)) maximum = err type_error
count (nested fs) maximum = err type_error
count (listed items) maximum = err type_error

abbrev pub count_in : Instance → ℕ → Option String → Result ℕ
count_in parent maximum none = ok maximum
count_in parent maximum (some name) = do value ← get_attribute parent name; count value maximum

-- `_active_count`
unfoldable pub active_count : Instance → RepeatedSectionSpec → Result ℕ
unfolding get_attribute count
active_count parent spec = count_in parent spec.count spec.active_count_attribute

pub record PresenceBinding : Type 0 where
  pub count_path : DataPath
  pub index : ℕ
  pub maximum_count : ℕ

-- `PresenceBinding.is_present`
unfoldable pub item_present : PresenceBinding → Instance → Result Bool
unfolding resolve count
item_present presence root = do
  value ← resolve (nested root) presence.count_path
  number ← count value presence.maximum_count
  ok (ltb presence.index number)

pub record EntityBinding : Type 0 where
  pub platform : EntityPlatform
  pub description : EntityDescription
  pub device : DeviceBinding
  pub path : Option DataPath
  pub value_fn : Option (Instance → Result Content)
  pub stale_paths : List DataPath
  pub presence : Option PresenceBinding
  pub repeated_key : Option String

-- `EntityBinding.unique_key`
unfoldable pub unique_key : EntityBinding → String
unique_key e =
    if str_eq e.device.key "main"
    then under e.repeated_key
    else str_append e.device.key (str_append "_" e.description.key)
  where
    under : Option String → String
    under none = e.description.key
    under (some key) = str_append key (str_append "_" e.description.key)

-- `EntityBinding.value_from`
unfoldable pub value_from : EntityBinding → Instance → Result Content
unfolding resolve
value_from e root = from e.value_fn e.path
  where
    from : Option (Instance → Result Content) → Option DataPath → Result Content
    from (some value_fn) path = value_fn root
    from none none = err value_error
    from none (some path) = resolve (nested root) path

abbrev pub present_by : Option PresenceBinding → Instance → Result Bool
present_by none root = ok true
present_by (some presence) root = item_present presence root

-- `EntityBinding.is_present`
unfoldable pub is_present : EntityBinding → Instance → Result Bool
unfolding item_present
is_present e root = present_by e.presence root
