-- ===== src/ProductCoordinator/Notices.antt =====
-- custom_components/marstek_ble/product_coordinator.py: the notifications of the enabled products.
use ha_marstek_ble.Prelude.{
  ℕ, zero, suc, ◌+◌, ◌-◌, ◌≤◌, Bool, true, false, inl, inr, Option, none, some, List, [], ◌∷◌, ◌++◌,
  ◌≡◌, ◌↔◌, refl, sym, ap, ◌∙◌, subst, arith, All, Bool-cases, length, drop, get_elem?,
}
use ha_marstek_ble.Struct.{Bytes}
use ha_marstek_ble.Schema.Total.{IsReady}
use ha_marstek_ble.ProductRuntime.{
  PayloadParser, ProductData, ProductRuntime, create_data, parse_notification, receive,
}
use ha_marstek_ble.ProductRuntime.Safety.{IsAtomic, rejected_unchanged}
use ha_marstek_ble.ProductRuntime.Ready.{KeepsReady, receive-IsReady}
use ha_marstek_ble.ProductRuntime.Accepts.{IsComplete, IsExpected, accepted_iff_IsExpected}
use ha_marstek_ble.Device.{Device, NotificationEntry, append, noted, record_notification}
use ha_marstek_ble.Marstek.{new_data}
use ha_marstek_ble.Venus.Ready.{venus_data-IsReady}
use ha_marstek_ble.Venus.Runtime.{venus_runtime, venus_profile}
use ha_marstek_ble.Venus.Atomic.{venus_parsers-IsAtomic}
use ha_marstek_ble.Venus.Accepts.{venus_runtime-IsComplete, venus_parsers-KeepsReady}
use ha_marstek_ble.Jupiter.Ready.{jupiter_data-IsReady}
use ha_marstek_ble.Jupiter.Runtime.{jupiter_runtime, jupiter_profile}
use ha_marstek_ble.Jupiter.Atomic.{jupiter_parsers-IsAtomic}
use ha_marstek_ble.Jupiter.Accepts.{jupiter_runtime-IsComplete, jupiter_parsers-KeepsReady}
use ha_marstek_ble.Products.{runtime_products}
use ha_marstek_ble.ProductCoordinator.{
  ProductCoordinator, new_product_coordinator, handle_notification, handle_all, Notice,
}

abbrev pub last_entry : List NotificationEntry → Option NotificationEntry
last_entry [] = none
last_entry (e ∷ []) = some e
last_entry (e ∷ f ∷ rest) = last_entry (f ∷ rest)

-- What the last entry of the notification history says of the parser.
abbrev pub last_parsed : Option NotificationEntry → Option Bool
last_parsed none = none
last_parsed (some e) = some e.parsed

last_entry-append :
    (history : List NotificationEntry) (e : NotificationEntry)
    → last_entry (history ++ e ∷ []) ≡ some e
last_entry-append [] e = refl
last_entry-append (x ∷ []) e = refl
last_entry-append (x ∷ y ∷ history) e = last_entry-append (y ∷ history) e

last_entry-drop :
    (n : ℕ) (history : List NotificationEntry) (e : NotificationEntry)
    → n ≤ length history
    → last_entry (drop n (history ++ e ∷ [])) ≡ some e
last_entry-drop zero history e h = last_entry-append history e
last_entry-drop (suc n) [] e h = absurd (omega arith)
last_entry-drop (suc n) (x ∷ history) e h = last_entry-drop n history e (omega arith)

noted-history :
    (command : Option ℕ) (timestamp : ℕ) (frame : Bytes) (d : Device)
    → (noted command timestamp frame d).notification_history ≡ d.notification_history
noted-history none timestamp frame d = refl
noted-history (some command) timestamp frame d = ground arith

recorded :
    (timestamp sender : ℕ) (frame : Bytes) (parsed : Bool) (d : Device)
    → last_parsed
        (last_entry (record_notification timestamp sender frame parsed d).notification_history)
      ≡ some parsed
unfolding record_notification append
recorded timestamp sender frame parsed d =
    ap (λ (l : List NotificationEntry). last_parsed (last_entry l))
      (noted-history (get_elem? frame 3) timestamp frame _)
    ∙ ap last_parsed (
        last_entry-drop (length d.notification_history + 1 - 25) d.notification_history _
          (omega arith))

-- What the enabled products have in common.
record IsSafe (product : ProductRuntime) : Type 0 where
  complete : IsComplete product
  kept : All (λ (p : ℕ × PayloadParser). KeepsReady p.1) product.payload_parsers
  atomic : All (λ (p : ℕ × PayloadParser). IsAtomic p.1) product.payload_parsers
  new_ready : IsReady product.profile.new_fields

venus_runtime-IsSafe : IsSafe venus_runtime
unfolding venus_runtime venus_profile
venus_runtime-IsSafe = record {
  complete = venus_runtime-IsComplete;
  kept = venus_parsers-KeepsReady;
  atomic = venus_parsers-IsAtomic;
  new_ready = venus_data-IsReady new_data;
}

jupiter_runtime-IsSafe : IsSafe jupiter_runtime
unfolding jupiter_runtime jupiter_profile
jupiter_runtime-IsSafe = record {
  complete = jupiter_runtime-IsComplete;
  kept = jupiter_parsers-KeepsReady;
  atomic = jupiter_parsers-IsAtomic;
  new_ready = jupiter_data-IsReady;
}

some_injective : (a b : ProductRuntime) → some a ≡ some b → a ≡ b
some_injective a b e = cc

product-IsSafe :
    (i : ℕ) (product : ProductRuntime)
    → get_elem? runtime_products i ≡ some product
    → IsSafe product
product-IsSafe zero product e =
    subst IsSafe (some_injective venus_runtime product e) venus_runtime-IsSafe
product-IsSafe (suc zero) product e =
    subst IsSafe (some_injective jupiter_runtime product e) jupiter_runtime-IsSafe
product-IsSafe (suc (suc i)) product e = absurd cc

frames_of : List Notice → List (Bytes × ℕ)
frames_of [] = []
frames_of ((parsed_at, recorded_at, sender, frame) ∷ rest) = (frame, parsed_at) ∷ frames_of rest

-- The data of a coordinator are those that its notifications leave.
handle_all-receive :
    (product : ProductRuntime) (notices : List Notice) (c : ProductCoordinator)
    → (handle_all product notices c).product_data
      ≡ receive product (frames_of notices) c.product_data
unfolding handle_all receive frames_of handle_notification
handle_all-receive product [] c = refl
handle_all-receive product ((parsed_at, recorded_at, sender, frame) ∷ rest) c =
    handle_all-receive product rest _

module _ (i : ℕ) (product : ProductRuntime) (device : Device) (history : List Notice)
    (parsed_at recorded_at sender : ℕ) (frame : Bytes) where
  abbrev pub coordinator_before : ProductCoordinator
  coordinator_before = handle_all product history (new_product_coordinator product device)

  abbrev pub coordinator_after : ProductCoordinator
  coordinator_after =
      handle_notification product parsed_at recorded_at sender frame coordinator_before

  accepted_iff :
      IsSafe product
      → ((parse_notification product frame parsed_at coordinator_before.product_data).0 ≡ true)
        ↔ IsExpected product frame
  accepted_iff safe =
      accepted_iff_IsExpected product frame parsed_at coordinator_before.product_data safe.complete
        (subst (λ (d : ProductData). IsReady d.fields)
          (sym (handle_all-receive product history (new_product_coordinator product device)))
          (receive-IsReady product (frames_of history) (create_data product) safe.kept
            safe.new_ready))

  -- After any history of notifications on a new coordinator of an enabled product, an expected
  -- frame calls the listeners once and is recorded as parsed.
  pub expected_handled :
      get_elem? runtime_products i ≡ some product
      → IsExpected product frame
      → (coordinator_after.listener_updates ≡ coordinator_before.listener_updates + 1)
        × (last_parsed (last_entry coordinator_after.device.notification_history) ≡ some true)
  unfolding handle_notification
  expected_handled e h =
      let parsed = (accepted_iff (product-IsSafe i product e)).1 h in
      rw parsed (refl, recorded recorded_at sender frame true coordinator_before.device)

  -- After any history of notifications on a new coordinator of an enabled product, any other frame
  -- leaves the data as they were and calls no listener, and it is recorded as not parsed.
  pub unexpected_handled :
      get_elem? runtime_products i ≡ some product
      → ¬ IsExpected product frame
      → (coordinator_after.product_data ≡ coordinator_before.product_data)
        × (coordinator_after.listener_updates ≡ coordinator_before.listener_updates)
        × (last_parsed (last_entry coordinator_after.device.notification_history) ≡ some false)
  unfolding handle_notification
  unexpected_handled e h =
      let safe = product-IsSafe i product e in
      elim (Bool-cases
        (parse_notification product frame parsed_at coordinator_before.product_data).0) [
          | inl t ↦ absurd (h ((accepted_iff safe).0 t))
          | inr f ↦ (
            rejected_unchanged product frame parsed_at coordinator_before.product_data safe.atomic
                f,
            rw f refl,
            rw f (recorded recorded_at sender frame false coordinator_before.device),
          )
        ]
