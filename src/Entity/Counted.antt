-- ===== src/Entity/Counted.antt =====
-- Counts and items of repeated sections in custom_components/marstek_ble/entity.py.
use ha_marstek_ble.Prelude.{
  ℕ, suc, ◌+◌, ◌≤◌, String, Option, none, some, [], ◌∷◌, ◌≡◌, ap, ◌∙◌, arith, ℤ, pos,
}
use ha_marstek_ble.Result.{ok}
use ha_marstek_ble.Entity.{Content, listed, Items, item, subscript, clamp, item_at}
use ha_marstek_ble.Entity.Plan.{StrDict, configured_count, get_key}

pub clamp_below : (z : ℤ) (maximum : ℕ) → clamp z maximum ≤ maximum
clamp_below z maximum = ground arith

pub configured_below :
    (o : Option ℤ) (discovered maximum : ℕ) → configured_count o discovered maximum ≤ maximum
configured_below none discovered maximum = clamp_below (pos discovered) maximum
configured_below (some z) discovered maximum = clamp_below z maximum

-- Without configured counts, no more than the discovered items are configured.
pub discovered_below :
    (key : String) (configured : StrDict ℤ) (discovered maximum : ℕ)
    → configured ≡ []
    → configured_count (get_key key configured) discovered maximum ≤ discovered
unfolding get_key
discovered_below key [] discovered maximum e = ground arith
discovered_below key (k ∷ rest) discovered maximum e = absurd cc

pub zero_item : (items : Items) (j : ℕ) → item_at items (0 + j) ≡ item_at items j
zero_item items j = ap (item_at items) (omega arith)

-- The items behind the first of those from number `i` on.
pub later_items :
    (every rest : Items) (first : Content) (i : ℕ)
    → ((j : ℕ) → item_at every (i + j) ≡ item_at (item first rest) j)
    → (j : ℕ) → item_at every (i + 1 + j) ≡ item_at rest j
later_items every rest first i s j = ap (item_at every) (omega arith) ∙ s (suc j)

pub first_item :
    (every rest : Items) (first : Content) (i : ℕ)
    → ((j : ℕ) → item_at every (i + j) ≡ item_at (item first rest) j)
    → subscript (listed every) i ≡ ok first
unfolding subscript
first_item every rest first i s =
    let found : item_at every i ≡ some first = ap (item_at every) (omega arith) ∙ s 0 in rw found
