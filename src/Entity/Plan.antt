-- ===== src/Entity/Plan.antt =====
-- `ProductProfile.build_entity_plan`, `_collect` and `_collect_repeated` of
-- custom_components/marstek_ble/entity.py. The dictionaries and the list that the recursion fills
-- are passed on from call to call, and an exception loses them.
mod Bindings
use Prim.Native.String.{◌++◌ as str_append}
use text.Mathlib.Text.{◌==◌ as str_eq}
use ha_marstek_ble.Prelude.{
  ℕ, zero, suc, ◌+◌, String, Bool, true, false, Option, none, some, List, [], ◌∷◌, ◌++◌, map,
  tabulate, ltb, if◌then◌else◌, ℤ, pos,
}
use ha_marstek_ble.Result.{
  value_error, type_error, index_error, Result, ok, err, ◌>>=◌, ◌>>◌, raise_if,
}
use ha_marstek_ble.Schema.Tree.{PathElement, DataPath}
use ha_marstek_ble.ProductRuntime.{element_text, path_key}
use ha_marstek_ble.Entity.{
  EntityPlatform, EntityDescription, FieldEntitySpec, IndexedEntitySpec, RepeatedChildDeviceSpec,
  ChildDevice, absent, foreign, child, RepeatedSectionSpec, Content, plain, nested, listed,
  Instance, end, attribute, Items, stop, item, ProductDeviceSpec, DeviceBinding, PresenceBinding,
  EntityBinding, len, clamp, active_count, subscript,
}
unfoldable pub use Bindings.*

-- `DerivedEntitySpec`
pub record DerivedEntitySpec : Type 0 where
  pub platform : EntityPlatform
  pub description : EntityDescription
  pub value_fn : Instance → Result Content
  pub stale_paths : List DataPath

-- The part of `ProductProfile` that plans are made of.
pub record ProductProfile : Type 0 where
  pub product_id : String
  pub device : ProductDeviceSpec
  pub derived_entities : List DerivedEntitySpec

-- A repeated value that is no list: `fields(item)` raises for its first item, if it has one.
abbrev pub not_items : ℕ → Content → Collected → Result Collected
not_items zero value c = ok c
not_items (suc n) value c = do first ← subscript value 0; err type_error

-- `_collect` over the fields `rest` of `current`, the value of one field, and the items of a
-- repeated one from number `i` on, of which `n` are configured.
unfoldable mutual
  unfolding indexed_bindings path_key device_context add_device active_count set_key get_key
      subscript

  pub collect : Context → Instance → Instance → Collected → Result Collected
  collect context current end c = ok c
  collect context current (attribute data_field value rest) c = do
    let field_path = context.path ++ PathElement.name data_field.name ∷ []
    let direct = map (direct_binding context field_path) data_field.field_entities
    indexed ← indexed_bindings context field_path value data_field.indexed_entities
    c' ←
        collect_value context field_path current data_field.repeated_section value
          (add_entities (direct ++ indexed) c)
    collect context current rest c'

  pub collect_value :
      Context
      → DataPath
      → Instance
      → Option RepeatedSectionSpec
      → Content
      → Collected
      → Result Collected
  collect_value context path parent none (plain v) c = ok c
  collect_value context path parent none (listed items) c = ok c
  collect_value context path parent none (nested fs) c =
      collect (record context { path = path }) fs fs c
  collect_value context path parent (some spec) (plain v) c = do
    discovered ← active_count parent spec
    let configured =
        configured_count (get_key (path_key path) context.configured_counts) discovered spec.count
    not_items configured (plain v) (set_count path configured c)
  collect_value context path parent (some spec) (nested fs) c = do
    discovered ← active_count parent spec
    let configured =
        configured_count (get_key (path_key path) context.configured_counts) discovered spec.count
    not_items configured (nested fs) (set_count path configured c)
  collect_value context path parent (some spec) (listed items) c = do
    discovered ← active_count parent spec
    let configured =
        configured_count (get_key (path_key path) context.configured_counts) discovered spec.count
    collect_items context path spec configured 0 items (set_count path configured c)

  pub collect_items :
      Context → DataPath → RepeatedSectionSpec → ℕ → ℕ → Items → Collected → Result Collected
  collect_items context path spec zero i items c = ok c
  collect_items context path spec (suc n) i stop c = err index_error
  collect_items context path spec (suc n) i (item (plain v) rest) c = err type_error
  collect_items context path spec (suc n) i (item (listed items) rest) c = err type_error
  collect_items context path spec (suc n) i (item (nested fs) rest) c = do
    raise_if (is_foreign spec.child_device) type_error
    let own = device_context spec.child_device i (item_context context path spec i)
    let devices = add_device spec.child_device i context.device c.devices
    c' ← collect own fs fs (record c { devices = devices })
    collect_items context path spec n (i + 1) rest c'

pub record EntityPlan : Type 0 where
  pub devices : List DeviceBinding
  pub entities : List EntityBinding
  pub repeated_counts : StrDict ℕ

abbrev pub main_binding : ProductDeviceSpec → DeviceBinding
main_binding device = record {
  key = "main";
  name = none;
  manufacturer = device.manufacturer;
  model = device.model;
  model_id = device.model_id;
  identifier_suffix = none;
  parent_key = none;
  index = none;
}

abbrev pub derived_binding : DeviceBinding → DerivedEntitySpec → EntityBinding
derived_binding main spec = record {
  platform = spec.platform;
  description = spec.description;
  device = main;
  path = none;
  value_fn = some spec.value_fn;
  stale_paths = spec.stale_paths;
  presence = none;
  repeated_key = none;
}

abbrev pub main_context : DeviceBinding → StrDict ℤ → Context
main_context main configured_counts = record {
  path = [];
  device = main;
  presence = none;
  name_prefix = none;
  key_prefix = none;
  configured_counts = configured_counts;
}

-- `ProductProfile.build_entity_plan`, on data of the profile's type.
unfoldable pub build_entity_plan : ProductProfile → Instance → StrDict ℤ → Result EntityPlan
unfolding collect
build_entity_plan profile root configured_counts = do
  let main = main_binding profile.device
  c ←
      collect (main_context main configured_counts) root root
        (record { devices = (main.key, main) ∷ []; entities = []; counts = [] })
  ok (record {
    devices = map (λ (d : String × DeviceBinding). d.1) c.devices;
    entities = c.entities ++ map (derived_binding main) profile.derived_entities;
    repeated_counts = c.counts;
  })
