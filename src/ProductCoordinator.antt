-- ===== src/ProductCoordinator.antt =====
-- custom_components/marstek_ble/product_coordinator.py: notifications from the device to the data
-- and to the listeners. `listener_updates` counts the calls of `async_update_listeners`, which is
-- Home Assistant's.
pub mod Notices
use ha_marstek_ble.Prelude.{ℕ, ◌+◌, Bool, List, [], ◌∷◌, if◌then◌else◌}
use ha_marstek_ble.Struct.{Bytes}
use ha_marstek_ble.ProductRuntime.{ProductData, ProductRuntime, create_data, parse_notification}
use ha_marstek_ble.Device.{Device, record_notification}

pub record ProductCoordinator : Type 0 where
  pub device : Device
  pub product_data : ProductData
  pub listener_updates : ℕ

-- `__init__`
abbrev pub new_product_coordinator : ProductRuntime → Device → ProductCoordinator
new_product_coordinator product device = record {
  device = device;
  product_data = create_data product;
  listener_updates = 0;
}

-- The end of `_handle_notification`.
abbrev handled : ℕ → ℕ → Bytes → Bool × ProductData → ProductCoordinator → ProductCoordinator
handled recorded_at sender frame (result, parsed) c = record {
  device = record_notification recorded_at sender frame result c.device;
  product_data = parsed;
  listener_updates = if result then c.listener_updates + 1 else c.listener_updates;
}

-- `_handle_notification`, which reads the clock in `parse_notification` and again in
-- `record_notification`. The parser lets no exception out.
unfoldable pub handle_notification :
    ProductRuntime → ℕ → ℕ → ℕ → Bytes → ProductCoordinator → ProductCoordinator
unfolding parse_notification record_notification
handle_notification product parsed_at recorded_at sender frame c =
    handled recorded_at sender frame (parse_notification product frame parsed_at c.product_data) c

-- A notification by its two clock readings, its sender and its bytes.
abbrev pub Notice : Type 0
Notice = ℕ × ℕ × ℕ × Bytes

unfoldable pub handle_all : ProductRuntime → List Notice → ProductCoordinator → ProductCoordinator
unfolding handle_notification
handle_all product [] c = c
handle_all product ((parsed_at, recorded_at, sender, frame) ∷ rest) c =
    handle_all product rest (handle_notification product parsed_at recorded_at sender frame c)
