-- ===== src/Entity/Placed.antt =====
-- Where the entities that `build_entity_plan` of custom_components/marstek_ble/entity.py binds stand
-- in the data, and which item's count decides on their presence.
use package.text.Mathlib.Text.{◌==◌ as str_eq}
use ha_marstek_ble.Prelude.{
  ℕ, zero, suc, ◌+◌, ◌<◌, ◌≤◌, String, false, inl, inr, Option, none, some, List, [], ◌∷◌, ◌++◌,
  map, tabulate, ltb, ◌≡◌, refl, ap, ◌∙◌, subst, arith, All, All-append, All-map, All-tabulate,
  Bool-cases,
}
use ha_marstek_ble.Result.{value_error, type_error, ok, err, >>=-ok, raise_if-ok, raise_if}
use ha_marstek_ble.Schema.Tree.{PathElement}
use ha_marstek_ble.ProductRuntime.{path_key}
use ha_marstek_ble.Entity.{
  RepeatedSectionSpec, DataField, Content, plain, nested, listed, Instance, end, attribute, Items,
  stop, item, EntityBinding, len, subscript, FieldEntitySpec, IndexedEntitySpec, ChildDevice,
  absent, foreign, child, item_at, active_count,
}
use ha_marstek_ble.Entity.Plan.{
  Context, Collected, collect, collect_value, collect_items, direct_binding, indexed_binding,
  indexed_bindings, not_items, add_entities, configured_count, get_key, item_presence, item_context,
  device_context, is_foreign, add_device, set_count,
}
use ha_marstek_ble.Entity.Counted.{configured_below, zero_item, later_items}
use ha_marstek_ble.Entity.Resolve.{ok_injective}
use ha_marstek_ble.Entity.Place.{HasAttribute, IsInnermost, IsInside, in_field, in_item, IsPlaced}

item_presence-IsInnermost :
    (context : Context) (spec : RepeatedSectionSpec) (i : ℕ) (o : Option String)
    → spec.active_count_attribute ≡ o
    → IsInnermost context.path spec i context.presence (item_presence context spec i o)
item_presence-IsInnermost context spec i none e = inl (e, refl)
item_presence-IsInnermost context spec i (some name) e = elim (Bool-cases (str_eq name "")) [
  | inl t ↦ inr (name, e, inl (t, rw t refl))
  | inr f ↦ inr (name, e, inr (f, rw f refl))
]

module _ (root : Instance) where
  -- The walk stands at an instance inside the tree.
  abbrev StandsAt : Context → Instance → Type 0
  StandsAt context current = IsInside root context.path current context.presence

  direct-IsPlaced :
      (context : Context) (current : Instance) (data_field : DataField) (value : Content)
      → StandsAt context current
      → HasAttribute data_field value current
      → (spec : FieldEntitySpec)
      → IsPlaced root
          (direct_binding context (context.path ++ PathElement.name data_field.name ∷ []) spec)
  direct-IsPlaced context current data_field value at h spec =
      (context.path, current, data_field, value, at, h, inl refl)

  indexed-IsPlaced :
      (context : Context) (current : Instance) (data_field : DataField) (value : Content)
      (specs : List IndexedEntitySpec) (bindings : List EntityBinding)
      → StandsAt context current
      → HasAttribute data_field value current
      → indexed_bindings context (context.path ++ PathElement.name data_field.name ∷ []) value specs
        ≡ ok bindings
      → All (IsPlaced root) bindings
  unfolding indexed_bindings
  indexed-IsPlaced context current data_field value [] bindings at h e =
      subst (All (IsPlaced root)) (ok_injective [] bindings e) tt
  indexed-IsPlaced context current data_field value (spec ∷ specs) bindings at h e =
      let path = context.path ++ PathElement.name data_field.name ∷ [] in
      let (n, l, e₁) = >>=-ok (len value) _ bindings e in
      let (_, c, e₂) = >>=-ok (raise_if (ltb n spec.count) value_error) _ bindings e₁ in
      let (rest, i, e₃) = >>=-ok (indexed_bindings context path value specs) _ bindings e₂ in
      subst (All (IsPlaced root)) (ok_injective _ bindings e₃) (
        All-append (IsPlaced root) (tabulate (indexed_binding context path spec) spec.count) rest
          (All-tabulate (IsPlaced root) spec.count (indexed_binding context path spec) λ j k. (
            context.path,
            current,
            data_field,
            value,
            at,
            h,
            inr (j, n, l, enough n spec.count j (raise_if-ok _ value_error c) k, refl),
          ))
          (indexed-IsPlaced context current data_field value specs rest at h i))
    where
      enough : (n m j : ℕ) → ltb n m ≡ false → j < m → j < n
      enough n m j h k = ground arith

  -- A child device leaves the place of an item as it is.
  device-StandsAt :
      (child_device : ChildDevice) (i : ℕ) (context : Context) (current : Instance)
      → StandsAt context current
      → StandsAt (device_context child_device i context) current
  unfolding device_context
  device-StandsAt absent i context current at = at
  device-StandsAt foreign i context current at = at
  device-StandsAt (child spec) i context current at = at

  returned :
      (c c' : Collected)
      → All (IsPlaced root) c.entities
      → ok c ≡ ok c'
      → All (IsPlaced root) c'.entities
  returned c c' all e =
      subst (λ (x : Collected). All (IsPlaced root) x.entities) (ok_injective c c' e) all

  not_items-IsPlaced :
      (n : ℕ) (value : Content) (c c' : Collected)
      → All (IsPlaced root) c.entities
      → not_items n value c ≡ ok c'
      → All (IsPlaced root) c'.entities
  not_items-IsPlaced zero value c c' all e = returned c c' all e
  not_items-IsPlaced (suc n) value c c' all e =
      let (first, f, e₁) = >>=-ok (subscript value 0) _ c' e in absurd (refused e₁)
    where
      refused : err type_error ≡ ok c' → ⊥
      refused q = cc

  mutual
    unfolding collect

    collect-IsPlaced :
        (context : Context) (current rest : Instance) (c c' : Collected)
        → StandsAt context current
        → ((f : DataField) (v : Content) → HasAttribute f v rest → HasAttribute f v current)
        → All (IsPlaced root) c.entities
        → collect context current rest c ≡ ok c'
        → All (IsPlaced root) c'.entities
    collect-IsPlaced context current end c c' at within all e = returned c c' all e
    collect-IsPlaced context current (attribute data_field value rest) c c' at within all e =
        let field_path = context.path ++ PathElement.name data_field.name ∷ [] in
        let h = within data_field value (inl (refl, refl)) in
        let direct = map (direct_binding context field_path) data_field.field_entities in
        let (indexed, i, e₁) =
          >>=-ok (indexed_bindings context field_path value data_field.indexed_entities) _ c' e in
        let filled = add_entities (direct ++ indexed) c in
        let (c₂, v, e₂) =
          >>=-ok (collect_value context field_path current data_field.repeated_section value filled)
            _ c' e₁ in
        collect-IsPlaced context current rest c₂ c' at (λ f w k. within f w (inr k))
          (value-IsPlaced context current data_field data_field.repeated_section value filled c₂ at
            h refl
            (All-append (IsPlaced root) c.entities (direct ++ indexed) all (
              All-append (IsPlaced root) direct indexed
                (All-map (IsPlaced root) (direct_binding context field_path)
                  data_field.field_entities (direct-IsPlaced context current data_field value at h))
                (indexed-IsPlaced context current data_field value data_field.indexed_entities
                  indexed at h i)))
            v)
          e₂

    value-IsPlaced :
        (context : Context) (parent : Instance) (data_field : DataField)
        (o : Option RepeatedSectionSpec) (value : Content) (c c' : Collected)
        → StandsAt context parent
        → HasAttribute data_field value parent
        → data_field.repeated_section ≡ o
        → All (IsPlaced root) c.entities
        → collect_value context
            (context.path ++ PathElement.name data_field.name ∷ [])
            parent
            o
            value
            c
          ≡ ok c'
        → All (IsPlaced root) c'.entities
    value-IsPlaced context parent data_field none (plain v) c c' at h r all e = returned c c' all e
    value-IsPlaced context parent data_field none (listed items) c c' at h r all e =
        returned c c' all e
    value-IsPlaced context parent data_field none (nested fs) c c' at h r all e =
        collect-IsPlaced
          (record context { path = context.path ++ PathElement.name data_field.name ∷ [] }) fs fs c
          c' (in_field data_field fs at h r) (λ f v k. k) all e
    value-IsPlaced context parent data_field (some spec) (plain v) c c' at h r all e =
        let (discovered, d, e₁) = >>=-ok (active_count parent spec) _ c' e in
        not_items-IsPlaced _ (plain v) _ c' all e₁
    value-IsPlaced context parent data_field (some spec) (nested fs) c c' at h r all e =
        let (discovered, d, e₁) = >>=-ok (active_count parent spec) _ c' e in
        not_items-IsPlaced _ (nested fs) _ c' all e₁
    value-IsPlaced context parent data_field (some spec) (listed items) c c' at h r all e =
        let path = context.path ++ PathElement.name data_field.name ∷ [] in
        let (discovered, d, e₁) = >>=-ok (active_count parent spec) _ c' e in
        let o = get_key (path_key path) context.configured_counts in
        let number = configured_count o discovered spec.count in
        items-IsPlaced context parent data_field spec number 0 items items (set_count path number c)
          c' at h r
          (subst (λ (m : ℕ). m ≤ spec.count) (omega arith)
            (configured_below o discovered spec.count))
          (zero_item items) all e₁

    items-IsPlaced :
        (context : Context) (parent : Instance) (data_field : DataField)
        (spec : RepeatedSectionSpec) (n i : ℕ) (items every : Items) (c c' : Collected)
        → StandsAt context parent
        → HasAttribute data_field (listed every) parent
        → data_field.repeated_section ≡ some spec
        → i + n ≤ spec.count
        → ((j : ℕ) → item_at every (i + j) ≡ item_at items j)
        → All (IsPlaced root) c.entities
        → collect_items context
            (context.path ++ PathElement.name data_field.name ∷ [])
            spec
            n
            i
            items
            c
          ≡ ok c'
        → All (IsPlaced root) c'.entities
    items-IsPlaced context parent data_field spec zero i items every c c' at h r m s all e =
        returned c c' all e
    items-IsPlaced context parent data_field spec (suc n) i stop every c c' at h r m s all e =
        absurd cc
    items-IsPlaced context parent data_field spec (suc n) i (item (plain v) rest) every c c' at h r
          m s all e =
        absurd cc
    items-IsPlaced context parent data_field spec (suc n) i (item (listed v) rest) every c c' at h r
          m s all e =
        absurd cc
    items-IsPlaced context parent data_field spec (suc n) i (item (nested fs) rest) every c c' at h
          r m s all e =
        let path = context.path ++ PathElement.name data_field.name ∷ [] in
        let (_, f, e₁) = >>=-ok (raise_if (is_foreign spec.child_device) type_error) _ c' e in
        let own = device_context spec.child_device i (item_context context path spec i) in
        let devices = add_device spec.child_device i context.device c.devices in
        let (c₂, w, e₂) = >>=-ok (collect own fs fs (record c { devices = devices })) _ c' e₁ in
        items-IsPlaced context parent data_field spec n (i + 1) rest every c₂ c' at h r
          (omega arith) (later_items every rest (nested fs) i s)
          (collect-IsPlaced own fs fs (record c { devices = devices }) c₂
            (device-StandsAt spec.child_device i (item_context context path spec i) fs (
              in_item data_field spec every i fs at h r (ap (item_at every) (omega arith) ∙ s 0)
                (omega arith)
                (item_presence-IsInnermost context spec i spec.active_count_attribute refl)))
            (λ g v k. k) all w)
          e₂
