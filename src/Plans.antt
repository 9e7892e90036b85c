-- ===== src/Plans.antt =====
-- Uses of the theorems on entity plans at an instance with battery packs, of which two are active.
use ha_marstek_ble.Prelude.{
  ℕ, String, ◌≡◌, refl, true, false, none, some, List, [], ◌∷◌, map, All, pos, ℤ,
}
use ha_marstek_ble.Result.{Result, ok}
use ha_marstek_ble.Converter.{int, null, reals}
use ha_marstek_ble.Schema.Tree.{PathElement}
use ha_marstek_ble.Entity.{
  sensor, EntityDescription, FieldEntitySpec, child, RepeatedSectionSpec, DataField, Content, plain,
  nested, listed, Instance, end, attribute, stop, item, EntityBinding, value_from, is_present,
  unique_key, get_attribute,
}
use ha_marstek_ble.Entity.Plan.{ProductProfile, EntityPlan, StrDict, build_entity_plan}
use ha_marstek_ble.Entity.Expansion.{ExpansionChange, detect_expansion_increases}
use ha_marstek_ble.Entity.Increase.{changes-AreReported}
use ha_marstek_ble.Entity.Report.{AreReported}
use ha_marstek_ble.Entity.Sections.{IsSection, sections}
use ha_marstek_ble.Entity.Resolve.{HasDataclasses}
use ha_marstek_ble.ProductRuntime.{known}
use ha_marstek_ble.Entity.Manager.{sync}
use ha_marstek_ble.Entity.Sync.{sync_all, sync_again, sync_adds_once}
use ha_marstek_ble.Entity.Live.{IsDataclass, plan_values, plan_present}

abbrev named : String → EntityDescription
named key = record { key = key; name = some key }

abbrev sensed : String → FieldEntitySpec
sensed key = record { platform = sensor; description = named key }

abbrev value_field : String → DataField
value_field name = record {
  name = name;
  field_entities = sensed name ∷ [];
  indexed_entities = [];
  repeated_section = none;
}

abbrev pack : ℕ → Instance
pack n = attribute (value_field "soc") (plain (int (pos n))) end

abbrev pack_spec : RepeatedSectionSpec
pack_spec = record {
  count = 3;
  active_count_attribute = some "pack_count";
  child_device = child (record {
    key_prefix = "pack";
    model = "Pack";
    name_factory = λ i. "Battery pack";
    identifier_factory = λ i. "pack";
    model_id = none;
  });
  item_name_factory = none;
}

abbrev packs_field : DataField
packs_field = record {
  name = "packs";
  field_entities = [];
  indexed_entities = [];
  repeated_section = some pack_spec;
}

abbrev cells_field : DataField
cells_field = record {
  name = "cells";
  field_entities = [];
  indexed_entities =
      record { platform = sensor; count = 2; description_factory = λ i. named "cell" } ∷ [];
  repeated_section = none;
}

abbrev battery_field : DataField
battery_field = record {
  name = "battery";
  field_entities = [];
  indexed_entities = [];
  repeated_section = none;
}

-- An instance with that many active packs.
abbrev battery : ℕ → Instance
battery active = attribute (value_field "pack_count") (plain (int (pos active))) (
    attribute cells_field (plain (reals (some (pos 3, 1) ∷ none ∷ []))) (
      attribute packs_field
        (listed (item (nested (pack 50)) (item (nested (pack 60)) (item (nested (pack 70)) stop))))
        end))

abbrev product : ℕ → Instance
product active = attribute battery_field (nested (battery active)) end

abbrev profile : ProductProfile
profile = record {
  product_id = "demo";
  device = record { manufacturer = "Marstek"; model = "Demo"; model_id = none };
  derived_entities =
      record {
        platform = sensor;
        description = named "total";
        value_fn = λ root. ok (plain null);
        stale_paths = [];
      }
      ∷ [];
}

product-IsDataclass : (active : ℕ) → IsDataclass (product active)
unfolding HasDataclasses get_attribute
product-IsDataclass active = (
  (refl, tt),
  (
    (
      (refl, (refl, (refl, tt))),
      (
        tt,
        (
          tt,
          ((((refl, tt), (tt, tt)), (((refl, tt), (tt, tt)), (((refl, tt), (tt, tt)), tt))), tt),
        ),
      ),
    ),
    tt,
  ),
)

abbrev plan_of : Result EntityPlan → EntityPlan
plan_of (ok plan) = plan
plan_of (Result.err e) = record { devices = []; entities = []; repeated_counts = [] }

abbrev configured : StrDict ℤ
configured = ("battery.packs", pos 1) ∷ []

abbrev plan : EntityPlan
plan = plan_of (build_entity_plan profile (product 2) [])

abbrev plan_configured : EntityPlan
plan_configured = plan_of (build_entity_plan profile (product 2) configured)

plan_built : build_entity_plan profile (product 2) [] ≡ ok plan
unfolding build_entity_plan
plan_built = refl

plan_configured_built : build_entity_plan profile (product 2) configured ≡ ok plan_configured
unfolding build_entity_plan
plan_configured_built = refl

-- The count, two cells, two packs and the derived entity, under their keys.
plan_keys :
    map unique_key plan.entities
    ≡ "pack_count" ∷ "battery.cells_0_cell" ∷ "battery.cells_1_cell" ∷ "pack_0_soc" ∷ "pack_1_soc"
      ∷ "total" ∷ []
unfolding build_entity_plan unique_key
plan_keys = refl

plan_values_example :
    All
      (λ (e : EntityBinding). (v : Content) × (value_from e (product 2) ≡ ok v))
      plan_configured.entities
plan_values_example =
    plan_values profile (product 2) configured plan_configured (product-IsDataclass 2)
      ((plain null, refl), tt) plan_configured_built

plan_present_example : All (λ (e : EntityBinding). is_present e (product 2) ≡ ok true) plan.entities
plan_present_example = plan_present profile (product 2) plan (product-IsDataclass 2) plan_built

-- A third pack has become active.
abbrev changes : List ExpansionChange
changes =
    record {
      path = PathElement.name "battery" ∷ PathElement.name "packs" ∷ [];
      configured_count = 2;
      discovered_count = 3;
      maximum_count = 3;
      issue_id = "demo_battery_packs_expansion_count_increased";
    }
    ∷ []

changes_detected : detect_expansion_increases profile (product 3) plan ≡ ok changes
unfolding detect_expansion_increases build_entity_plan
changes_detected = refl

changes-AreReported_example :
    All (IsSection (product 3)) (sections (product 3) (product 3) [])
    × AreReported plan.repeated_counts profile.product_id
        (sections (product 3) (product 3) [])
        changes
changes-AreReported_example =
    changes-AreReported profile (product 3) plan changes (product-IsDataclass 3) changes_detected

abbrev synced_of : Result (List EntityBinding × List String) → List EntityBinding × List String
synced_of (ok r) = r
synced_of (Result.err e) = ([], [])

-- The sensors of two active packs, and the sensor that a third one adds.
abbrev first_sync : List EntityBinding × List String
first_sync = synced_of (sync profile sensor (product 2) [])

abbrev second_sync : List EntityBinding × List String
second_sync = synced_of (sync profile sensor (product 3) first_sync.1)

first_synced : sync profile sensor (product 2) [] ≡ ok (first_sync.0, first_sync.1)
unfolding sync
first_synced = refl

second_synced : sync profile sensor (product 3) first_sync.1 ≡ ok (second_sync.0, second_sync.1)
unfolding sync
second_synced = refl

third_pack_added : map unique_key second_sync.0 ≡ "pack_2_soc" ∷ []
unfolding sync unique_key
third_pack_added = refl

sync_again_example : sync profile sensor (product 2) first_sync.1 ≡ ok ([], first_sync.1)
sync_again_example = sync_again profile sensor (product 2) [] first_sync.0 first_sync.1 first_synced

between_synced : sync_all profile sensor (product 2 ∷ []) first_sync.1 ≡ ok first_sync.1
unfolding sync_all sync
between_synced = refl

sync_adds_once_example :
    All
      (λ (b : EntityBinding). known (unique_key b) (map unique_key first_sync.0) ≡ false)
      second_sync.0
sync_adds_once_example =
    sync_adds_once profile sensor (product 2) (product 3) (product 2 ∷ []) [] first_sync.1
      first_sync.1 second_sync.1 first_sync.0 second_sync.0 first_synced between_synced
      second_synced
