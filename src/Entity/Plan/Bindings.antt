-- ===== src/Entity/Plan/Bindings.antt =====
-- The bindings and the contexts of items that `_collect` and `_collect_repeated` of
-- custom_components/marstek_ble/entity.py make.
use Prim.Native.String.{◌++◌ as str_append}
use text.Mathlib.Text.{◌==◌ as str_eq}
use ha_marstek_ble.Prelude.{
  ℕ, String, Bool, true, false, Option, none, some, List, [], ◌∷◌, ◌++◌, tabulate, ltb,
  if◌then◌else◌, ℤ, pos,
}
use ha_marstek_ble.Result.{value_error, Result, ok, ◌>>=◌, ◌>>◌, raise_if}
use ha_marstek_ble.Schema.Tree.{PathElement, DataPath}
use ha_marstek_ble.ProductRuntime.{element_text, path_key}
use ha_marstek_ble.Entity.{
  EntityDescription, FieldEntitySpec, IndexedEntitySpec, RepeatedChildDeviceSpec, ChildDevice,
  absent, foreign, child, RepeatedSectionSpec, Content, DeviceBinding, PresenceBinding,
  EntityBinding, len, clamp,
}

-- A dict by its items.
abbrev pub StrDict {ℓ} : Type ℓ → Type ℓ
StrDict A = List (String × A)

-- `d[key] = a`, which keeps the place of a known key, and `d.get(key)`.
unfoldable pub set_key {ℓ} : {A : Type ℓ} → String → A → StrDict A → StrDict A
set_key key a [] = (key, a) ∷ []
set_key key a ((k, old) ∷ rest) =
    let more = set_key key a rest in if str_eq k key then (k, a) ∷ rest else (k, old) ∷ more

unfoldable pub get_key {ℓ} : {A : Type ℓ} → String → StrDict A → Option A
get_key key [] = none
get_key key ((k, a) ∷ rest) = let later = get_key key rest in if str_eq k key then some a else later

-- What `_collect` fills: `devices`, `entities` and `counts`.
pub record Collected : Type 0 where
  pub devices : StrDict DeviceBinding
  pub entities : List EntityBinding
  pub counts : StrDict ℕ

-- The arguments of `_collect` that describe where it is.
pub record Context : Type 0 where
  pub path : DataPath
  pub device : DeviceBinding
  pub presence : Option PresenceBinding
  pub name_prefix : Option String
  pub key_prefix : Option String
  pub configured_counts : StrDict ℤ

-- `_prefixed`
unfoldable pub prefixed : EntityDescription → Option String → EntityDescription
prefixed description none = description
prefixed description (some prefix) = record description { name = prefix_name description.name }
  where
    prefix_name : Option String → Option String
    prefix_name none = none
    prefix_name (some name) = some (str_append prefix (str_append " " name))

-- `f"{key}_{index}"`
abbrev pub numbered : String → ℕ → String
numbered key i = str_append key (str_append "_" (element_text (PathElement.index i)))

-- `f"{prefix}_{key}" if prefix else key`
abbrev prefix_key : Option String → String → String
prefix_key none key = key
prefix_key (some prefix) key =
    if str_eq prefix "" then key else str_append prefix (str_append "_" key)

-- The loop over `get_field_entities(data_field)`.
abbrev pub direct_binding : Context → DataPath → FieldEntitySpec → EntityBinding
direct_binding context field_path spec = record {
  platform = spec.platform;
  description = prefixed spec.description context.name_prefix;
  device = context.device;
  path = some field_path;
  value_fn = none;
  stale_paths = field_path ∷ [];
  presence = context.presence;
  repeated_key = context.key_prefix;
}

-- `f"{key_prefix}_{index}" if key_prefix else f"{_path(field_path)}_{index}"`
abbrev indexed_key : Option String → DataPath → ℕ → String
indexed_key none field_path i = numbered (path_key field_path) i
indexed_key (some prefix) field_path i =
    if str_eq prefix "" then numbered (path_key field_path) i else numbered prefix i

abbrev pub indexed_binding : Context → DataPath → IndexedEntitySpec → ℕ → EntityBinding
indexed_binding context field_path spec i = record {
  platform = spec.platform;
  description = prefixed (spec.description_factory i) context.name_prefix;
  device = context.device;
  path = some (field_path ++ PathElement.index i ∷ []);
  value_fn = none;
  stale_paths = field_path ∷ [];
  presence = context.presence;
  repeated_key = some (indexed_key context.key_prefix field_path i);
}

-- The loop over `get_indexed_entities(data_field)`.
unfoldable pub indexed_bindings :
    Context → DataPath → Content → List IndexedEntitySpec → Result (List EntityBinding)
unfolding len prefixed element_text path_key
indexed_bindings context field_path value [] = ok []
indexed_bindings context field_path value (spec ∷ specs) = do
  n ← len value
  raise_if (ltb n spec.count) value_error
  rest ← indexed_bindings context field_path value specs
  ok (tabulate (indexed_binding context field_path spec) spec.count ++ rest)

abbrev pub add_entities : List EntityBinding → Collected → Collected
add_entities entities c = record c { entities = c.entities ++ entities }

-- `_count(configured_counts.get(path_name, discovered), spec.count)`
abbrev pub configured_count : Option ℤ → ℕ → ℕ → ℕ
configured_count none discovered maximum = clamp (pos discovered) maximum
configured_count (some configured) discovered maximum = clamp configured maximum

-- The presence of an item: an empty name is no name here. `path[:-1]` is the path of the context.
abbrev pub item_presence :
    Context → RepeatedSectionSpec → ℕ → Option String → Option PresenceBinding
item_presence context spec i none = context.presence
item_presence context spec i (some name) =
    if str_eq name ""
    then context.presence
    else some (record {
      count_path = context.path ++ PathElement.name name ∷ [];
      index = i;
      maximum_count = spec.count;
    })

abbrev item_name : Option (ℕ → String) → Option String → ℕ → Option String
item_name none parent_name i = parent_name
item_name (some factory) parent_name i = some (factory i)

-- An item with no device of its own.
abbrev pub item_context : Context → DataPath → RepeatedSectionSpec → ℕ → Context
item_context context path spec i = record {
  path = path ++ PathElement.index i ∷ [];
  device = context.device;
  presence = item_presence context spec i spec.active_count_attribute;
  name_prefix = item_name spec.item_name_factory context.name_prefix i;
  key_prefix = some (prefix_key context.key_prefix (numbered (path_key path) i));
  configured_counts = context.configured_counts;
}

abbrev child_binding : RepeatedChildDeviceSpec → DeviceBinding → ℕ → DeviceBinding
child_binding spec parent_device i = record {
  key = numbered spec.key_prefix i;
  name = some (spec.name_factory i);
  manufacturer = parent_device.manufacturer;
  model = spec.model;
  model_id = spec.model_id;
  identifier_suffix = some (spec.identifier_factory i);
  parent_key = some parent_device.key;
  index = some i;
}

-- `not isinstance(child, RepeatedChildDeviceSpec)`
abbrev pub is_foreign : ChildDevice → Bool
is_foreign absent = false
is_foreign foreign = true
is_foreign (child spec) = false

-- The context of an item with its own device, if it has one.
unfoldable pub device_context : ChildDevice → ℕ → Context → Context
unfolding element_text
device_context absent i context = context
device_context foreign i context = context
device_context (child spec) i context = record context {
  device = child_binding spec context.device i;
  name_prefix = none;
  key_prefix = none;
}

-- `devices[device_key] = item_device`
unfoldable pub add_device :
    ChildDevice → ℕ → DeviceBinding → StrDict DeviceBinding → StrDict DeviceBinding
unfolding set_key element_text
add_device absent i parent_device devices = devices
add_device foreign i parent_device devices = devices
add_device (child spec) i parent_device devices =
    let own = child_binding spec parent_device i in set_key own.key own devices

abbrev pub set_count : DataPath → ℕ → Collected → Collected
set_count path n c = record c { counts = set_key (path_key path) n c.counts }
