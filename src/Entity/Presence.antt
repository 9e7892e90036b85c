-- ===== src/Entity/Presence.antt =====
-- The entities that `build_entity_plan` of custom_components/marstek_ble/entity.py binds, on the
-- instance that it walks.
use package.text.Mathlib.Text.{◌==◌ as str_eq}
use ha_marstek_ble.Prelude.{
  if◌then◌else◌, ℕ, zero, suc, ◌+◌, ◌<◌, ◌≤◌, String, Bool, true, false, Option, none, some, List,
  [], ◌∷◌, ◌++◌, map, tabulate, ltb, ◌≡◌, ◌∙◌, subst, arith, All, All-append, All-map, All-tabulate,
  ℤ,
}
use ha_marstek_ble.Result.{value_error, type_error, ok, err, >>=-ok, raise_if-ok, raise_if}
use ha_marstek_ble.Converter.{text}
use ha_marstek_ble.Schema.Tree.{PathElement, DataPath}
use ha_marstek_ble.ProductRuntime.{path_key}
use ha_marstek_ble.Entity.{
  RepeatedSectionSpec, Content, plain, nested, listed, Instance, end, attribute, Items, stop, item,
  EntityBinding, resolve, get_attribute, subscript, count, PresenceBinding, count_in, len,
  value_from, FieldEntitySpec, IndexedEntitySpec, ChildDevice, absent, foreign, child, item_at,
  active_count,
}
use ha_marstek_ble.Entity.Plan.{
  Context, Collected, collect, collect_value, collect_items, direct_binding, indexed_binding,
  indexed_bindings, not_items, StrDict, add_entities, configured_count, get_key,
}
use ha_marstek_ble.Entity.Plan.{
  item_presence, item_context, device_context, is_foreign, add_device, set_count,
}
use ha_marstek_ble.Entity.Counted.{
  configured_below, discovered_below, zero_item, later_items, first_item,
}
use ha_marstek_ble.Entity.Resolve.{
  IsNamed, HasDataclasses, IsSound, AreSound, IsCounted, HasCount, Reads, resolve-name,
  resolve-index, subscript-len, ok_injective,
}

module _ (root : Instance) (configured : StrDict ℤ) where
  -- Where the walk stands: at an instance of the tree, under a known count.
  pub record IsAt (context : Context) (current : Instance) : Type 0 where
    pub place : resolve (nested root) context.path ≡ ok (nested current)
    pub presence : HasCount root configured context.presence
    pub same : context.configured_counts ≡ configured

  direct-Reads :
      (context : Context) (current : Instance) (path : DataPath) (value : Content)
      → IsAt context current
      → resolve (nested root) path ≡ ok value
      → (spec : FieldEntitySpec) → Reads root configured (direct_binding context path spec)
  unfolding value_from
  direct-Reads context current path value at r spec = ((value, r), at.presence)

  indexed-Reads :
      (context : Context) (current : Instance) (path : DataPath) (value : Content)
      (specs : List IndexedEntitySpec) (bindings : List EntityBinding)
      → IsAt context current
      → resolve (nested root) path ≡ ok value
      → indexed_bindings context path value specs ≡ ok bindings
      → All (Reads root configured) bindings
  unfolding indexed_bindings value_from
  indexed-Reads context current path value [] bindings at r e =
      subst (All (Reads root configured)) (ok_injective [] bindings e) tt
  indexed-Reads context current path value (spec ∷ specs) bindings at r e =
      let (n, l, e₁) = >>=-ok (len value) _ bindings e in
      let (_, c, e₂) = >>=-ok (raise_if (ltb n spec.count) value_error) _ bindings e₁ in
      let (rest, i, e₃) = >>=-ok (indexed_bindings context path value specs) _ bindings e₂ in
      subst (All (Reads root configured)) (ok_injective _ bindings e₃) (
        All-append (Reads root configured) (tabulate (indexed_binding context path spec) spec.count)
          rest
          (All-tabulate (Reads root configured) spec.count (indexed_binding context path spec)
            λ j k.
              let (v, g) =
                subscript-len value n j l (enough n spec.count j (raise_if-ok _ value_error c) k) in
              ((v, resolve-index root path j value v r g), at.presence))
          (indexed-Reads context current path value specs rest at r i))
    where
      enough : (n m j : ℕ) → ltb n m ≡ false → j < m → j < n
      enough n m j h k = ground arith

  -- The count of an item, as its presence reads it.
  item_counted :
      (context : Context) (parent : Instance) (spec : RepeatedSectionSpec) (i number discovered : ℕ)
      (o : Option String)
      → IsAt context parent
      → count_in parent spec.count o ≡ ok discovered
      → number ≤ spec.count
      → (configured ≡ [] → number ≤ discovered)
      → i < number
      → HasCount root configured (item_presence context spec i o)
  item_counted context parent spec i number discovered none at e m d h = at.presence
  item_counted context parent spec i number discovered (some name) at e m d h =
      let (value, g, k) =
        >>=-ok (get_attribute parent name) (λ v. count v spec.count) discovered e in
      chosen (str_eq name "") context.presence _ at.presence (
        omega arith,
        value,
        discovered,
        resolve-name root parent context.path name value at.place g,
        k,
        λ q. omega (arith, d q),
      )
    where
      chosen :
          (b : Bool) (o : Option PresenceBinding) (p : PresenceBinding)
          → HasCount root configured o
          → IsCounted root configured p
          → HasCount root configured (if b then o else some p)
      chosen true o p h k = h
      chosen false o p h k = k

  -- A child device leaves the place and the count of an item as they are.
  device-IsAt :
      (child_device : ChildDevice) (i : ℕ) (context : Context) (current : Instance)
      → IsAt context current
      → IsAt (device_context child_device i context) current
  unfolding device_context
  device-IsAt absent i context current at = at
  device-IsAt foreign i context current at = at
  device-IsAt (child spec) i context current at = record {
    place = at.place;
    presence = at.presence;
    same = at.same;
  }

  returned-Reads :
      (c c' : Collected)
      → All (Reads root configured) c.entities
      → ok c ≡ ok c'
      → All (Reads root configured) c'.entities
  returned-Reads c c' all e =
      subst (λ (x : Collected). All (Reads root configured) x.entities) (ok_injective c c' e) all

  not_items-Reads :
      (n : ℕ) (value : Content) (c c' : Collected)
      → All (Reads root configured) c.entities
      → not_items n value c ≡ ok c'
      → All (Reads root configured) c'.entities
  not_items-Reads zero value c c' all e = returned-Reads c c' all e
  not_items-Reads (suc n) value c c' all e =
      let (first, f, e₁) = >>=-ok (subscript value 0) _ c' e in absurd (refused e₁)
    where
      refused : err type_error ≡ ok c' → ⊥
      refused q = cc

  mutual
    unfolding collect HasDataclasses

    pub collect-Reads :
        (context : Context) (current rest : Instance) (c c' : Collected)
        → IsAt context current
        → IsNamed current rest
        → HasDataclasses rest
        → All (Reads root configured) c.entities
        → collect context current rest c ≡ ok c'
        → All (Reads root configured) c'.entities
    collect-Reads context current end c c' at named sound all e = returned-Reads c c' all e
    collect-Reads context current (attribute data_field value rest) c c' at named sound all e =
        let field_path = context.path ++ PathElement.name data_field.name ∷ [] in
        let place = resolve-name root current context.path data_field.name value at.place named.0 in
        let direct = map (direct_binding context field_path) data_field.field_entities in
        let (indexed, i, e₁) =
          >>=-ok (indexed_bindings context field_path value data_field.indexed_entities) _ c' e in
        let filled = add_entities (direct ++ indexed) c in
        let (c₂, v, e₂) =
          >>=-ok (collect_value context field_path current data_field.repeated_section value filled)
            _ c' e₁ in
        collect-Reads context current rest c₂ c' at named.1 sound.1
          (value-Reads context field_path current data_field.repeated_section value filled c₂ at
            place sound.0
            (All-append (Reads root configured) c.entities (direct ++ indexed) all (
              All-append (Reads root configured) direct indexed
                (All-map (Reads root configured) (direct_binding context field_path)
                  data_field.field_entities
                  (direct-Reads context current field_path value at place))
                (indexed-Reads context current field_path value data_field.indexed_entities indexed
                  at place i)))
            v)
          e₂

    value-Reads :
        (context : Context) (path : DataPath) (parent : Instance) (o : Option RepeatedSectionSpec)
        (value : Content) (c c' : Collected)
        → IsAt context parent
        → resolve (nested root) path ≡ ok value
        → IsSound value
        → All (Reads root configured) c.entities
        → collect_value context path parent o value c ≡ ok c'
        → All (Reads root configured) c'.entities
    value-Reads context path parent none (plain v) c c' at place sound all e =
        returned-Reads c c' all e
    value-Reads context path parent none (listed items) c c' at place sound all e =
        returned-Reads c c' all e
    value-Reads context path parent none (nested fs) c c' at place sound all e =
        collect-Reads (record context { path = path }) fs fs c c'
          (record { place = place; presence = at.presence; same = at.same }) sound.0 sound.1 all e
    value-Reads context path parent (some spec) (plain v) c c' at place sound all e =
        let (discovered, d, e₁) = >>=-ok (active_count parent spec) _ c' e in
        not_items-Reads _ (plain v) _ c' all e₁
    value-Reads context path parent (some spec) (nested fs) c c' at place sound all e =
        let (discovered, d, e₁) = >>=-ok (active_count parent spec) _ c' e in
        not_items-Reads _ (nested fs) _ c' all e₁
    value-Reads context path parent (some spec) (listed items) c c' at place sound all e =
        let (discovered, d, e₁) = >>=-ok (active_count parent spec) _ c' e in
        let o = get_key (path_key path) context.configured_counts in
        let number = configured_count o discovered spec.count in
        items-Reads context path parent spec number 0 number items items discovered
          (set_count path number c) c' at place d (configured_below o discovered spec.count)
          (λ q.
            discovered_below (path_key path) context.configured_counts discovered spec.count
              (at.same ∙ q))
          (omega arith) (zero_item items) sound all e₁

    items-Reads :
        (context : Context) (path : DataPath) (parent : Instance) (spec : RepeatedSectionSpec)
        (n i number : ℕ) (items every : Items) (discovered : ℕ) (c c' : Collected)
        → IsAt context parent
        → resolve (nested root) path ≡ ok (listed every)
        → active_count parent spec ≡ ok discovered
        → number ≤ spec.count
        → (configured ≡ [] → number ≤ discovered)
        → i + n ≡ number
        → ((j : ℕ) → item_at every (i + j) ≡ item_at items j)
        → AreSound items
        → All (Reads root configured) c.entities
        → collect_items context path spec n i items c ≡ ok c'
        → All (Reads root configured) c'.entities
    items-Reads context path parent spec zero i number items every discovered c c' at place d m k l
          s sound all e =
        returned-Reads c c' all e
    items-Reads context path parent spec (suc n) i number stop every discovered c c' at place d m k
          l s sound all e =
        absurd cc
    items-Reads context path parent spec (suc n) i number (item (plain v) rest) every discovered c
          c' at place d m k l s sound all e =
        absurd cc
    items-Reads context path parent spec (suc n) i number (item (listed v) rest) every discovered c
          c' at place d m k l s sound all e =
        absurd cc
    items-Reads context path parent spec (suc n) i number (item (nested fs) rest) every discovered c
          c' at place d m k l s sound all e =
        let (_, f, e₁) = >>=-ok (raise_if (is_foreign spec.child_device) type_error) _ c' e in
        let own = device_context spec.child_device i (item_context context path spec i) in
        let devices = add_device spec.child_device i context.device c.devices in
        let (c₂, w, e₂) = >>=-ok (collect own fs fs (record c { devices = devices })) _ c' e₁ in
        items-Reads context path parent spec n (i + 1) number rest every discovered c₂ c' at place d
          m k (omega (arith, l)) (later_items every rest (nested fs) i s) sound.1
          (collect-Reads own fs fs (record c { devices = devices }) c₂
            (device-IsAt spec.child_device i (item_context context path spec i) fs (record {
              place =
                  resolve-index root path i (listed every) (nested fs) place
                    (first_item every rest (nested fs) i s);
              presence =
                  item_counted context parent spec i number discovered spec.active_count_attribute
                    at d m k (omega (arith, l));
              same = at.same;
            }))
            sound.0.0 sound.0.1 all w)
          e₂
