-- ===== src/Entity/Sections.antt =====
-- The repeated sections of an instance of custom_components/marstek_ble/entity.py, listed without
-- regard to counts: where each stands, and on what.
use ha_marstek_ble.Prelude.{
  ℕ, ◌+◌, Option, none, some, List, [], ◌∷◌, ◌++◌, ◌≡◌, ◌⊎◌, inl, inr, refl, All, All-append,
}
use ha_marstek_ble.Result.{ok}
use ha_marstek_ble.Schema.Tree.{PathElement, DataPath}
use ha_marstek_ble.Entity.{
  RepeatedSectionSpec, DataField, Content, plain, nested, listed, Instance, end, attribute, Items,
  stop, item, item_at, resolve,
}
use ha_marstek_ble.Entity.Counted.{zero_item, later_items, first_item}
use ha_marstek_ble.Entity.Resolve.{
  IsNamed, HasDataclasses, IsSound, AreSound, resolve-name, resolve-index,
}

-- The field `data_field` of `parent`, which stands at `place`, is repeated.
pub record Section : Type 0 where
  pub place : DataPath
  pub parent : Instance
  pub data_field : DataField
  pub spec : RepeatedSectionSpec

abbrev pub path_of : Section → DataPath
path_of s = s.place ++ PathElement.name s.data_field.name ∷ []

-- The repeated fields among the fields `rest` of `current`, of the value of one field, and of the
-- items from number `i` on, in the order of the fields and items; those of an instance inside come
-- after the section that it is an item of.
unfoldable mutual
  pub sections : Instance → Instance → DataPath → List Section
  sections current end place = []
  sections current (attribute data_field value rest) place =
      sections_of_value current data_field data_field.repeated_section value place
      ++ sections current rest place

  pub sections_of_value :
      Instance → DataField → Option RepeatedSectionSpec → Content → DataPath → List Section
  sections_of_value current data_field none (plain v) place = []
  sections_of_value current data_field none (listed items) place = []
  sections_of_value current data_field none (nested fs) place =
      sections fs fs (place ++ PathElement.name data_field.name ∷ [])
  sections_of_value current data_field (some spec) (plain v) place =
      record { place = place; parent = current; data_field = data_field; spec = spec } ∷ []
  sections_of_value current data_field (some spec) (nested fs) place =
      record { place = place; parent = current; data_field = data_field; spec = spec } ∷ []
  sections_of_value current data_field (some spec) (listed items) place =
      record { place = place; parent = current; data_field = data_field; spec = spec }
      ∷ sections_of_items items (place ++ PathElement.name data_field.name ∷ []) 0

  pub sections_of_items : Items → DataPath → ℕ → List Section
  sections_of_items stop path i = []
  sections_of_items (item (plain v) rest) path i = sections_of_items rest path (i + 1)
  sections_of_items (item (listed v) rest) path i = sections_of_items rest path (i + 1)
  sections_of_items (item (nested fs) rest) path i =
      sections fs fs (path ++ PathElement.index i ∷ []) ++ sections_of_items rest path (i + 1)

-- The instance has the field.
abbrev pub HasField : DataField → Instance → Type 0
HasField data_field end = ⊥
HasField data_field (attribute other value rest) = (data_field ≡ other) ⊎ HasField data_field rest

-- The section is one of the tree: its parent is found at its place and has its field, which has
-- the section's specification.
abbrev pub IsSection : Instance → Section → Type 0
IsSection root s =
    (resolve (nested root) s.place ≡ ok (nested s.parent))
    × HasField s.data_field s.parent
    × (s.data_field.repeated_section ≡ some s.spec)

module _ (root : Instance) where
  mutual
    unfolding sections HasDataclasses

    pub sections-IsSection :
        (current rest : Instance) (place : DataPath)
        → resolve (nested root) place ≡ ok (nested current)
        → ((f : DataField) → HasField f rest → HasField f current)
        → IsNamed current rest
        → HasDataclasses rest
        → All (IsSection root) (sections current rest place)
    sections-IsSection current end place r within named sound = tt
    sections-IsSection current (attribute data_field value rest) place r within named sound =
        All-append (IsSection root)
          (sections_of_value current data_field data_field.repeated_section value place)
          (sections current rest place)
          (sections_of_value-IsSection current data_field data_field.repeated_section value place r
            (within data_field (inl refl)) refl
            (resolve-name root current place data_field.name value r named.0) sound.0)
          (sections-IsSection current rest place r (λ f h. within f (inr h)) named.1 sound.1)

    sections_of_value-IsSection :
        (current : Instance) (data_field : DataField) (o : Option RepeatedSectionSpec)
        (value : Content) (place : DataPath)
        → resolve (nested root) place ≡ ok (nested current)
        → HasField data_field current
        → data_field.repeated_section ≡ o
        → resolve (nested root) (place ++ PathElement.name data_field.name ∷ []) ≡ ok value
        → IsSound value
        → All (IsSection root) (sections_of_value current data_field o value place)
    sections_of_value-IsSection current data_field none (plain v) place r h e t sound = tt
    sections_of_value-IsSection current data_field none (listed items) place r h e t sound = tt
    sections_of_value-IsSection current data_field none (nested fs) place r h e t sound =
        sections-IsSection fs fs (place ++ PathElement.name data_field.name ∷ []) t (λ f k. k)
          sound.0 sound.1
    sections_of_value-IsSection current data_field (some spec) (plain v) place r h e t sound =
        ((r, h, e), tt)
    sections_of_value-IsSection current data_field (some spec) (nested fs) place r h e t sound =
        ((r, h, e), tt)
    sections_of_value-IsSection current data_field (some spec) (listed items) place r h e t sound =
        (
          (r, h, e),
          sections_of_items-IsSection items items (place ++ PathElement.name data_field.name ∷ []) 0
              t (zero_item items) sound,
        )

    sections_of_items-IsSection :
        (every items : Items) (path : DataPath) (i : ℕ)
        → resolve (nested root) path ≡ ok (listed every)
        → ((j : ℕ) → item_at every (i + j) ≡ item_at items j)
        → AreSound items
        → All (IsSection root) (sections_of_items items path i)
    sections_of_items-IsSection every stop path i r s sound = tt
    sections_of_items-IsSection every (item (plain v) rest) path i r s sound =
        sections_of_items-IsSection every rest path (i + 1) r (later_items every rest (plain v) i s)
          sound.1
    sections_of_items-IsSection every (item (listed v) rest) path i r s sound =
        sections_of_items-IsSection every rest path (i + 1) r
          (later_items every rest (listed v) i s) sound.1
    sections_of_items-IsSection every (item (nested fs) rest) path i r s sound =
        All-append (IsSection root) (sections fs fs (path ++ PathElement.index i ∷ []))
          (sections_of_items rest path (i + 1))
          (sections-IsSection fs fs (path ++ PathElement.index i ∷ [])
            (resolve-index root path i (listed every) (nested fs) r
              (first_item every rest (nested fs) i s))
            (λ f k. k) sound.0.0 sound.0.1)
          (sections_of_items-IsSection every rest path (i + 1) r
            (later_items every rest (nested fs) i s) sound.1)
