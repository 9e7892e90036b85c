-- ===== src/Schema/Tree.antt =====
-- Dataclass instances with the metadata of their fields, and the parser of schema.py over them.
-- An instance is the list of its fields, in the order of `fields(result)`.
use ha_marstek_ble.Prelude.{
  ℕ, suc, ◌+◌, ◌*◌, String, not, Option, none, some, List, [], ◌∷◌, ◌++◌, map, ◌==◌, if◌then◌else◌,
  length,
}
use ha_marstek_ble.Struct.{Bytes}
use ha_marstek_ble.Result.{value_error, type_error, Result, ok, err, ◌>>=◌, ◌>>◌, raise_if}
use ha_marstek_ble.Converter.{Value, Raw}
use ha_marstek_ble.Schema.{
  PacketSchema, validate_payload, find, FieldSource, if_found, applies_to, parse_from, RepeatedSpec,
}

mutual
  -- `leaf` is a `source_field`; `plain` a field with no packet source whose value is no dataclass
  -- instance; `section` one whose value is, with the offsets of its packets if it names any;
  -- `repeated` a `repeated_section_field`, and `not_a_list` one whose value was replaced.
  pub data Slot : Type 0 where
    leaf : String → List (PacketSchema × FieldSource) → Value → Slot
    plain : String → Value → Slot
    section : String → Option (List (PacketSchema × ℕ)) → Fields → Slot
    repeated : String → RepeatedSpec → Items → Slot
    not_a_list : String → RepeatedSpec → Value → Slot

  pub data Fields : Type 0 where
    end : Fields
    field : Slot → Fields → Fields

  -- `stray` is an item that is no dataclass instance.
  pub data Items : Type 0 where
    stop : Items
    item : Fields → Items → Items
    stray : Value → Items → Items

pub data PathElement : Type 0 where
  name : String → PathElement
  index : ℕ → PathElement

abbrev pub DataPath : Type 0
DataPath = List PathElement

-- Where an attribute stands in a tree: the `_target` and `_attribute` of an update.
pub data Address : Type 0 where
  here : Address
  first later : Address → Address

pub record ParsedField : Type 0 where
  pub path : DataPath
  pub value : Value
  pub raw_value : Raw
  pub target : Address

-- An update of a part, as an update of the whole.
abbrev pub under : (Address → Address) → ParsedField → ParsedField
under f u = record u { target = f u.target }

abbrev pub joined : List ParsedField → List ParsedField → List ParsedField
joined us vs = map (under first) us ++ map (under later) vs

abbrev pub item_count : Items → ℕ
item_count stop = 0
item_count (item _ rest) = suc (item_count rest)
item_count (stray _ rest) = suc (item_count rest)

-- The part of `_iter_parsed_fields` on a field with packet sources.
unfoldable pub iter_leaf :
    Bytes
    → PacketSchema
    → List (PacketSchema × FieldSource)
    → ℕ
    → DataPath
    → Result (List ParsedField)
unfolding find applies_to parse_from
iter_leaf payload packet sources base path = if_found (find packet sources) (ok []) λ source.
    if applies_to source (length payload) base
    then (do
      (raw_value, value) ← parse_from source payload base
      ok (record { path = path; value = value; raw_value = raw_value; target = here } ∷ []))
    else ok []

-- `_iter_parsed_fields`: a slot's path is that of its instance and its name.
unfoldable mutual
  unfolding iter_leaf find

  pub iter_slot : Bytes → PacketSchema → Slot → ℕ → DataPath → Result (List ParsedField)
  iter_slot payload packet (leaf n sources _) base path =
      iter_leaf payload packet sources base (path ++ name n ∷ [])
  iter_slot payload packet (plain n _) base path = ok []
  iter_slot payload packet (section n none fs) base path =
      iter_fields payload packet fs base (path ++ name n ∷ [])
  iter_slot payload packet (section n (some offsets) fs) base path =
      if_found (find packet offsets) (ok [])
        λ offset. iter_fields payload packet fs (base + offset) (path ++ name n ∷ [])
  iter_slot payload packet (repeated n spec items) base path =
      if_found (find packet spec.sources) (ok []) λ r.
        raise_if (not (item_count items == spec.count)) value_error
        >> iter_items payload packet items (base + r.offset) r.stride (path ++ name n ∷ []) 0
  iter_slot payload packet (not_a_list n spec _) base path =
      if_found (find packet spec.sources) (ok []) λ r. err type_error

  pub iter_fields : Bytes → PacketSchema → Fields → ℕ → DataPath → Result (List ParsedField)
  iter_fields payload packet end base path = ok []
  iter_fields payload packet (field s rest) base path = do
    us ← iter_slot payload packet s base path
    vs ← iter_fields payload packet rest base path
    ok (joined us vs)

  -- The items from number `i` on, which stand at `base + i * stride`.
  pub iter_items : Bytes → PacketSchema → Items → ℕ → ℕ → DataPath → ℕ → Result (List ParsedField)
  iter_items payload packet stop base stride path i = ok []
  iter_items payload packet (item fs rest) base stride path i = do
    us ← iter_fields payload packet fs (base + i * stride) (path ++ index i ∷ [])
    vs ← iter_items payload packet rest base stride path (i + 1)
    ok (joined us vs)
  iter_items payload packet (stray _ rest) base stride path i = err type_error

-- Writing an attribute. An address that leads nowhere changes nothing.
unfoldable mutual
  pub set_slot : Address → Value → Slot → Slot
  set_slot a v (leaf n sources old) = leaf n sources v
  set_slot a v (plain n old) = plain n old
  set_slot a v (section n offsets fs) = section n offsets (set_fields a v fs)
  set_slot a v (repeated n spec items) = repeated n spec (set_items a v items)
  set_slot a v (not_a_list n spec old) = not_a_list n spec old

  pub set_fields : Address → Value → Fields → Fields
  set_fields here v (field s rest) = field s rest
  set_fields (first a) v (field s rest) = field (set_slot a v s) rest
  set_fields (later a) v (field s rest) = field s (set_fields a v rest)
  set_fields a v end = end

  pub set_items : Address → Value → Items → Items
  set_items here v (item fs rest) = item fs rest
  set_items (first a) v (item fs rest) = item (set_fields a v fs) rest
  set_items (later a) v (item fs rest) = item fs (set_items a v rest)
  set_items a v (stray w rest) = stray w rest
  set_items a v stop = stop

-- `for update in updates: update.apply()`
unfoldable pub apply_all : List ParsedField → Fields → Fields
unfolding set_fields
apply_all [] fs = fs
apply_all (u ∷ us) fs = apply_all us (set_fields u.target u.value fs)

-- `tuple(iter_parsed_fields(payload, packet, result))`
unfoldable pub parsed_fields : Bytes → PacketSchema → Fields → Result (List ParsedField)
unfolding iter_fields validate_payload
parsed_fields payload packet result =
    validate_payload packet payload >> iter_fields payload packet result 0 []

-- `parse_into`: every field is decoded before the first is written.
unfoldable pub parse_into : Bytes → PacketSchema → Fields → Result Fields
unfolding parsed_fields apply_all
parse_into payload packet result = do
  updates ← parsed_fields payload packet result
  ok (apply_all updates result)
