-- ===== src/Entity/Live.antt =====
-- The entities that `build_entity_plan` of custom_components/marstek_ble/entity.py binds, on the
-- instance that the plan was built from.
use ha_marstek_ble.Prelude.{
  true, Option, none, some, List, [], ◌∷◌, ◌++◌, map, ◌≡◌, refl, sym, ap, subst, All, All-append,
  All-imply, lt→ltb, All-map, ℤ,
}
use ha_marstek_ble.Result.{ok, >>=-ok}
use ha_marstek_ble.Entity.{
  Content, Instance, EntityBinding, resolve, PresenceBinding, value_from, present_by, is_present,
  item_present, DeviceBinding,
}
use ha_marstek_ble.Entity.Plan.{
  Collected, collect, DerivedEntitySpec, EntityPlan, ProductProfile, StrDict, build_entity_plan,
  derived_binding, main_context, main_binding,
}
use ha_marstek_ble.Entity.Resolve.{IsNamed, HasDataclasses, HasCount, Reads, ok_injective}
use ha_marstek_ble.Entity.Presence.{collect-Reads}

-- An instance of a dataclass, as its fields are: no two have one name, in it or in those inside.
abbrev pub IsDataclass : Instance → Type 0
IsDataclass fs = IsNamed fs fs × HasDataclasses fs

-- The entities that a plan collects from an instance, before the derived ones.
built-Reads :
    (profile : ProductProfile) (root : Instance) (configured : StrDict ℤ) (plan : EntityPlan)
    → IsDataclass root
    → build_entity_plan profile root configured ≡ ok plan
    → (collected : List EntityBinding) × (plan.entities
        ≡ collected ++ map (derived_binding (main_binding profile.device)) profile.derived_entities)
      × All (Reads root configured) collected
unfolding build_entity_plan resolve
built-Reads profile root configured plan sound e =
    let main = main_binding profile.device in
    let start : Collected = record {
      devices = (main.key, main) ∷ [];
      entities = [];
      counts = [];
    } in
    let (c, f, e₁) = >>=-ok (collect (main_context main configured) root root start) _ plan e in
    (
      c.entities,
      sym (ap (λ (p : EntityPlan). p.entities) (ok_injective _ plan e₁)),
      collect-Reads root configured (main_context main configured) root root start c
          (record { place = refl; presence = tt; same = refl }) sound.0 sound.1 tt f,
    )

-- What holds of the collected entities and of the derived ones holds of a plan's.
of_plan :
    (profile : ProductProfile) (P : EntityBinding → Type 0)
    (collected entities : List EntityBinding)
    → entities
      ≡ collected ++ map (derived_binding (main_binding profile.device)) profile.derived_entities
    → All P collected
    → All P (map (derived_binding (main_binding profile.device)) profile.derived_entities)
    → All P entities
of_plan profile P collected entities f h k = subst (All P) (sym f) (All-append P collected _ h k)

derived_values :
    (main : DeviceBinding) (root : Instance) (specs : List DerivedEntitySpec)
    → All (λ (d : DerivedEntitySpec). (v : Content) × (d.value_fn root ≡ ok v)) specs
    → All
        (λ (e : EntityBinding). (v : Content) × (value_from e root ≡ ok v))
        (map (derived_binding main) specs)
unfolding value_from
derived_values main root [] h = tt
derived_values main root (d ∷ specs) (v, h) = (v, derived_values main root specs h)

-- A count above the item's number.
counted_present :
    (root : Instance) (o : Option PresenceBinding)
    → HasCount root [] o
    → present_by o root ≡ ok true
unfolding item_present
counted_present root none h = refl
counted_present root (some p) (below, value, n, r, c, more) =
    rw (r, c, lt→ltb p.index n (more refl))

-- Every entity of a plan reads a value from the instance that the plan was built from, whatever
-- counts were configured, if the functions of the profile's derived entities return a value for
-- it and no instance has two fields of one name.
pub plan_values :
    (profile : ProductProfile) (root : Instance) (configured : StrDict ℤ) (plan : EntityPlan)
    → IsDataclass root
    → All
        (λ (d : DerivedEntitySpec). (v : Content) × (d.value_fn root ≡ ok v))
        profile.derived_entities
    → build_entity_plan profile root configured ≡ ok plan
    → All (λ (e : EntityBinding). (v : Content) × (value_from e root ≡ ok v)) plan.entities
plan_values profile root configured plan sound derived e =
    let (collected, f, all) = built-Reads profile root configured plan sound e in
    of_plan profile (λ (x : EntityBinding). (v : Content) × (value_from x root ≡ ok v)) collected
      plan.entities f (All-imply (Reads root configured) _ collected (λ x h. h.0) all)
      (derived_values (main_binding profile.device) root profile.derived_entities derived)

-- A plan that is built without configured counts has only entities that are present in the
-- instance that it was built from, if no instance has two fields of one name.
pub plan_present :
    (profile : ProductProfile) (root : Instance) (plan : EntityPlan)
    → IsDataclass root
    → build_entity_plan profile root [] ≡ ok plan
    → All (λ (e : EntityBinding). is_present e root ≡ ok true) plan.entities
unfolding is_present
plan_present profile root plan sound e =
    let (collected, f, all) = built-Reads profile root [] plan sound e in
    of_plan profile (λ (x : EntityBinding). is_present x root ≡ ok true) collected plan.entities f
      (All-imply (Reads root []) _ collected (λ x h. counted_present root x.presence h.1) all)
      (All-map (λ (x : EntityBinding). is_present x root ≡ ok true)
        (derived_binding (main_binding profile.device)) profile.derived_entities λ d. refl)
