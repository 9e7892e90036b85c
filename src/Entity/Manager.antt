-- ===== src/Entity/Manager.antt =====
-- `ProductEntityManager` of custom_components/marstek_ble/product_entity_platform.py. Its state is
-- the set of known keys. The factory's entities are stood for by the bindings that it is given.
use text.Mathlib.Text.{◌==◌ as str_eq}
use ha_marstek_ble.Prelude.{
  String, Bool, true, false, not, ◌&&◌, Option, none, some, List, [], ◌∷◌, ◌++◌, map, if◌then◌else◌,
}
use ha_marstek_ble.Result.{Result, ok, ◌>>=◌}
use ha_marstek_ble.Schema.Tree.{PathElement, DataPath}
use ha_marstek_ble.ProductRuntime.{known, path_key}
use ha_marstek_ble.Entity.{
  EntityPlatform, sensor, binary_sensor, Instance, EntityBinding, unique_key,
}
use ha_marstek_ble.Entity.Plan.{ProductProfile, build_entity_plan, numbered}

abbrev pub same_platform : EntityPlatform → EntityPlatform → Bool
same_platform sensor sensor = true
same_platform binary_sensor binary_sensor = true
same_platform _ _ = false

-- The repeated key that `_collect` gives an item of an indexed field of the main device:
-- `path[-1]` and `path[:-1]` of a path that ends in an index.
abbrev indexed_text : DataPath → DataPath → Option String
indexed_text before [] = none
indexed_text before (PathElement.index i ∷ []) = some (numbered (path_key before) i)
indexed_text before (PathElement.name n ∷ []) = none
indexed_text before (part ∷ next ∷ path) = indexed_text (before ++ part ∷ []) (next ∷ path)

abbrev text_of : Option DataPath → Option String
text_of none = none
text_of (some path) = indexed_text [] path

abbrev is_text : Option String → Option String → Bool
is_text (some a) (some b) = str_eq a b
is_text _ _ = false

-- `live_binding`: an item of an indexed field of the main device loses its repeated key.
unfoldable pub live_binding : EntityBinding → EntityBinding
live_binding binding =
    if str_eq binding.device.key "main" && is_text binding.repeated_key (text_of binding.path)
    then record binding { repeated_key = none }
    else binding

-- The loop over the bindings of the plan, with the new ones in their order.
unfoldable pub new_bindings : EntityPlatform → List String → List EntityBinding → List EntityBinding
unfolding live_binding unique_key
new_bindings platform known_keys [] = []
new_bindings platform known_keys (binding ∷ bindings) =
    let rest = new_bindings platform known_keys bindings in
    let live = live_binding binding in
    if not (same_platform binding.platform platform)
    then rest
    else if known (unique_key live) known_keys
    then rest
    else live ∷ rest

-- `sync`, on data that is not None: the entities that it adds and the known keys afterwards.
unfoldable pub sync :
    ProductProfile
    → EntityPlatform
    → Instance
    → List String
    → Result (List EntityBinding × List String)
unfolding build_entity_plan new_bindings unique_key
sync profile platform root known_keys = do
  plan ← build_entity_plan profile root []
  let added = new_bindings platform known_keys plan.entities
  ok (added, known_keys ++ map unique_key added)
