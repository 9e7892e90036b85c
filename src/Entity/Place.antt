-- ===== src/Entity/Place.antt =====
-- The places of instances and entities in data of custom_components/marstek_ble/entity.py: paths
-- through fields and items, with the item whose count decides on what is present.
use package.text.Mathlib.Text.{◌==◌ as str_eq}
use ha_marstek_ble.Prelude.{
  ℕ, ◌<◌, String, true, false, Option, none, some, [], ◌∷◌, ◌++◌, ◌≡◌, ◌⊎◌,
}
use ha_marstek_ble.Result.{ok}
use ha_marstek_ble.Schema.Tree.{PathElement, DataPath}
use ha_marstek_ble.Entity.{
  RepeatedSectionSpec, DataField, Content, nested, listed, Instance, end, attribute, Items,
  EntityBinding, PresenceBinding, len, item_at,
}

-- The instance has the field, with this value.
abbrev pub HasAttribute : DataField → Content → Instance → Type 0
HasAttribute data_field value end = ⊥
HasAttribute data_field value (attribute other v rest) =
    (data_field ≡ other) × (value ≡ v) ⊎ HasAttribute data_field value rest

-- The presence `q` of item `i` of a section of the instance at `path`, which has the presence `p`:
-- the item's own count when the section names a count attribute, and the instance's when not.
abbrev pub IsInnermost :
    DataPath → RepeatedSectionSpec → ℕ → Option PresenceBinding → Option PresenceBinding → Type 0
IsInnermost path spec i p q =
    (spec.active_count_attribute ≡ none) × (q ≡ p)
    ⊎ (name : String) × (spec.active_count_attribute ≡ some name)
      × ((str_eq name "" ≡ true) × (q ≡ p)
          ⊎ (str_eq name "" ≡ false)
            × (q
                ≡ some (record {
                  count_path = path ++ PathElement.name name ∷ [];
                  index = i;
                  maximum_count = spec.count;
                })))

-- An instance inside the tree, with its path and the presence of the innermost item that has a
-- count of its own: the tree itself, the value of a field, or an item of a repeated section, whose
-- number is below the section's count.
pub data IsInside (root : Instance) : DataPath → Instance → Option PresenceBinding → Type 0 where
  whole : IsInside root [] root none
  in_field :
      {path : DataPath} {current : Instance} {p : Option PresenceBinding} (data_field : DataField)
      (fs : Instance)
      → IsInside root path current p
      → HasAttribute data_field (nested fs) current
      → data_field.repeated_section ≡ none
      → IsInside root (path ++ PathElement.name data_field.name ∷ []) fs p
  in_item :
      {path : DataPath} {current : Instance} {p q : Option PresenceBinding} (data_field : DataField)
      (spec : RepeatedSectionSpec) (items : Items) (i : ℕ) (fs : Instance)
      → IsInside root path current p
      → HasAttribute data_field (listed items) current
      → data_field.repeated_section ≡ some spec
      → item_at items i ≡ some (nested fs)
      → i < spec.count
      → IsInnermost path spec i p q
      → IsInside root
          ((path ++ PathElement.name data_field.name ∷ []) ++ PathElement.index i ∷ [])
          fs
          q

-- The entity is one of a field of an instance inside the tree, of its value or of an element that
-- the value has, and its presence is that of the instance.
abbrev pub IsPlaced : Instance → EntityBinding → Type 0
IsPlaced root e =
    (path : DataPath) × (current : Instance) × (data_field : DataField) × (value : Content)
    × IsInside root path current e.presence
    × HasAttribute data_field value current
    × (e.path ≡ some (path ++ PathElement.name data_field.name ∷ [])
        ⊎ (i n : ℕ) × (len value ≡ ok n)
          × (i < n)
          × (e.path
              ≡ some ((path ++ PathElement.name data_field.name ∷ []) ++ PathElement.index i ∷ [])))
