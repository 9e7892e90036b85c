-- ===== src/Schema/Ready.antt =====
-- Instances whose converters suit their formats, under `parse_into` of
-- custom_components/marstek_ble/schema.py and under `setattr`.
use text.Mathlib.Text.{◌==◌ as str_eq}
use ha_marstek_ble.Prelude.{
  ℕ, suc, ◌≡◌, refl, sym, ap, ◌∙◌, subst, String, Bool, true, false, List, [], ◌∷◌, length, ℤ,
  arith, if◌then◌else◌, not, ◌^◌, ◌*ℤ◌, ltb_ℤ, pos, ◌==◌,
}
use ha_marstek_ble.Struct.{Bytes}
use ha_marstek_ble.Result.{ok}
use ha_marstek_ble.Converter.{
  Value, bool, int, real, one, Converter, identity, to_float, is_zero, nonzero, and_mask, bit,
  multiply_by, divide_by,
}
use ha_marstek_ble.Schema.{PacketSchema, to_raw}
use ha_marstek_ble.Schema.Tree.{
  Slot, leaf, plain, section, repeated, not_a_list, Fields, end, field, Items, stop, item, stray,
  item_count, parse_into,
}
use ha_marstek_ble.Schema.Tables.{built}
use ha_marstek_ble.Schema.Attributes.{set_attribute, set_in}
use ha_marstek_ble.Schema.Stable.{shape, shape_slot, shape_items, shape-parse_into}
use ha_marstek_ble.Schema.Total.{IsReady, IsReadySlot, IsReadyItems}

-- A converter takes the items of a format of one item, and of one with more.
abbrev pub TakesOne : Converter → Type 0
TakesOne convert = (vs : List ℤ) → length vs ≡ 1 → (v : Value) × (convert (to_raw vs) ≡ ok v)

pub one-TakesOne :
    (convert : Converter) → ((v : ℤ) → (w : Value) × (convert (one v) ≡ ok w)) → TakesOne convert
one-TakesOne convert f [] h = absurd (omega arith)
one-TakesOne convert f (v ∷ []) h = f v
one-TakesOne convert f (v ∷ w ∷ vs) h = absurd (omega arith)

pub identity-TakesOne : TakesOne identity
identity-TakesOne = one-TakesOne identity λ v. (int v, refl)

pub to_float-TakesOne : TakesOne to_float
to_float-TakesOne = one-TakesOne to_float λ v. (real v 1, refl)

pub nonzero-TakesOne : TakesOne nonzero
nonzero-TakesOne = one-TakesOne nonzero λ v. (bool (not (is_zero v)), refl)

pub divide_by-TakesOne : (n : ℕ) → (n == 0) ≡ false → TakesOne (built (divide_by n))
unfolding divide_by
divide_by-TakesOne n h = one-TakesOne (built (divide_by n)) λ v. (real v n, rw h)

pub multiply_by-TakesOne : (z : ℤ) → TakesOne (multiply_by z)
unfolding multiply_by
multiply_by-TakesOne z = one-TakesOne (multiply_by z) λ v. (int (v *ℤ z), refl)

pub bit-TakesOne : (k : ℕ) → TakesOne (built (bit (pos k)))
unfolding bit
bit-TakesOne k =
    one-TakesOne (built (bit (pos k)))
      λ v. (bool (not (and_mask v (2 ^ k) == 0)), rw (not_negative k))
  where
    not_negative : (k : ℕ) → ltb_ℤ (pos k) (pos 0) ≡ false
    not_negative k = ground arith

item_count-shape : (items : Items) → item_count (shape_items items) ≡ item_count items
unfolding shape_items
item_count-shape stop = refl
item_count-shape (item fs rest) = ap suc (item_count-shape rest)
item_count-shape (stray v rest) = ap suc (item_count-shape rest)

-- Whether an instance is ready shows in its shape, in both directions.
mutual
  unfolding IsReady IsReadySlot IsReadyItems shape shape_slot shape_items

  slot_shape : (s : Slot) → IsReadySlot s → IsReadySlot (shape_slot s)
  slot_shape (leaf n sources old) h = h
  slot_shape (plain n old) h = h
  slot_shape (section n offsets fs) h = fields_shape fs h
  slot_shape (repeated n spec items) (e, h) = (item_count-shape items ∙ e, items_shape items h)
  slot_shape (not_a_list n spec old) h = h

  fields_shape : (fs : Fields) → IsReady fs → IsReady (shape fs)
  fields_shape end h = h
  fields_shape (field s rest) (h, k) = (slot_shape s h, fields_shape rest k)

  items_shape : (items : Items) → IsReadyItems items → IsReadyItems (shape_items items)
  items_shape stop h = h
  items_shape (item fs rest) (h, k) = (fields_shape fs h, items_shape rest k)
  items_shape (stray v rest) h = h

mutual
  unfolding IsReady IsReadySlot IsReadyItems shape shape_slot shape_items

  shape_slot_back : (s : Slot) → IsReadySlot (shape_slot s) → IsReadySlot s
  shape_slot_back (leaf n sources old) h = h
  shape_slot_back (plain n old) h = h
  shape_slot_back (section n offsets fs) h = shape_back fs h
  shape_slot_back (repeated n spec items) (e, h) =
      (sym (item_count-shape items) ∙ e, shape_items_back items h)
  shape_slot_back (not_a_list n spec old) h = h

  shape_back : (fs : Fields) → IsReady (shape fs) → IsReady fs
  shape_back end h = h
  shape_back (field s rest) (h, k) = (shape_slot_back s h, shape_back rest k)

  shape_items_back : (items : Items) → IsReadyItems (shape_items items) → IsReadyItems items
  shape_items_back stop h = h
  shape_items_back (item fs rest) (h, k) = (shape_back fs h, shape_items_back rest k)
  shape_items_back (stray v rest) h = h

-- A parsed instance is as ready as it was.
pub parse_into-IsReady :
    (payload : Bytes) (packet : PacketSchema) (result result' : Fields)
    → parse_into payload packet result ≡ ok result'
    → IsReady result
    → IsReady result'
parse_into-IsReady payload packet result result' e h =
    shape_back result' (
      subst IsReady (sym (shape-parse_into payload packet result result' e))
        (fields_shape result h))

if-IsReady : (b : Bool) (x y : Fields) → IsReady x → IsReady y → IsReady (if b then x else y)
if-IsReady true x y h k = h
if-IsReady false x y h k = k

set_attribute-IsReady :
    (attribute : String) (value : Value) (fs : Fields)
    → IsReady fs
    → IsReady (set_attribute attribute value fs)
unfolding IsReady IsReadySlot set_attribute
set_attribute-IsReady attribute value end h = h
set_attribute-IsReady attribute value (field (leaf n sources old) rest) (h, k) =
    if-IsReady (str_eq n attribute) _ _ (h, k) (h, set_attribute-IsReady attribute value rest k)
set_attribute-IsReady attribute value (field (plain n old) rest) (h, k) =
    if-IsReady (str_eq n attribute) _ _ (h, k) (h, set_attribute-IsReady attribute value rest k)
set_attribute-IsReady attribute value (field (section n offsets fs) rest) (h, k) =
    (h, set_attribute-IsReady attribute value rest k)
set_attribute-IsReady attribute value (field (repeated n spec items) rest) (h, k) =
    (h, set_attribute-IsReady attribute value rest k)
set_attribute-IsReady attribute value (field (not_a_list n spec old) rest) (h, k) =
    (h, set_attribute-IsReady attribute value rest k)

-- An assignment to an attribute of a section leaves the instance ready.
pub set_in-IsReady :
    (name attribute : String) (value : Value) (fs : Fields)
    → IsReady fs
    → IsReady (set_in name attribute value fs)
unfolding IsReady IsReadySlot set_in
set_in-IsReady name attribute value end h = h
set_in-IsReady name attribute value (field (leaf n sources old) rest) (h, k) =
    (h, set_in-IsReady name attribute value rest k)
set_in-IsReady name attribute value (field (plain n old) rest) (h, k) =
    (h, set_in-IsReady name attribute value rest k)
set_in-IsReady name attribute value (field (section n offsets fs) rest) (h, k) =
    if-IsReady (str_eq n name) _ _ (set_attribute-IsReady attribute value fs h, k)
      (h, set_in-IsReady name attribute value rest k)
set_in-IsReady name attribute value (field (repeated n spec items) rest) (h, k) =
    (h, set_in-IsReady name attribute value rest k)
set_in-IsReady name attribute value (field (not_a_list n spec old) rest) (h, k) =
    (h, set_in-IsReady name attribute value rest k)
