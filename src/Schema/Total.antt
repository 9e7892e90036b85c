-- ===== src/Schema/Total.antt =====
-- The guards of custom_components/marstek_ble/schema.py against reads past the end of a payload.
use ha_marstek_ble.Prelude.{
  ℕ, suc, ◌+◌, ◌*◌, ◌≤◌, max, ◌≡◌, refl, true, inl, inr, Option, none, some, List, [], ◌∷◌, length,
  drop, length-drop, arith, fits, fits→le, le→fits, Bool-cases, Option-cases, ℤ, ◌∙◌, All, subst,
  ==_iff,
}
use ha_marstek_ble.Struct.{
  Bytes, Order, Code, uint8, int8, uint16, int16, uint32, items_size, cons_item, read_items,
}
use ha_marstek_ble.Result.{ok}
use ha_marstek_ble.Converter.{Value, Raw}
use ha_marstek_ble.Schema.{
  PacketSchema, validate_payload, find, FieldSource, size, or_zero, applies_to, to_raw, parse_from,
  packet_eq,
}
use ha_marstek_ble.Schema.Tree.{
  Slot, leaf, plain, section, repeated, not_a_list, Fields, end, field, Items, stop, item, stray,
  item_count, parse_into,
}
use ha_marstek_ble.Schema.OnePass.{
  decode_leaf, decode_slot, decode_fields, decode_items, decode, parse_into-eq-decode,
}

-- As many items as the codes ask for.
abbrev Read : Order → List Code → Bytes → Type 0
Read o cs bytes = (vs : List ℤ) × (read_items o cs bytes ≡ some vs) × (length vs ≡ length cs)

cons_Read :
    (cs : List Code) (v : ℤ) (o : Option (List ℤ))
    → (vs : List ℤ) × (o ≡ some vs) × (length vs ≡ length cs)
    → (vs : List ℤ) × (cons_item v o ≡ some vs) × (length vs ≡ suc (length cs))
cons_Read cs v o (vs, e, h) = (v ∷ vs, rw e, omega arith)

-- `struct` reads all its items where the bytes suffice.
Read-items_total :
    (o : Order) (cs : List Code) (bytes : Bytes) → items_size cs ≤ length bytes → Read o cs bytes
unfolding read_items
Read-items_total o [] bytes h = ([], refl, refl)
Read-items_total o (uint8 ∷ cs) [] h = absurd (omega arith)
Read-items_total o (uint8 ∷ cs) (a ∷ bytes) h =
    cons_Read cs _ _ (Read-items_total o cs bytes (omega arith))
Read-items_total o (int8 ∷ cs) [] h = absurd (omega arith)
Read-items_total o (int8 ∷ cs) (a ∷ bytes) h =
    cons_Read cs _ _ (Read-items_total o cs bytes (omega arith))
Read-items_total o (uint16 ∷ cs) [] h = absurd (omega arith)
Read-items_total o (uint16 ∷ cs) (a ∷ []) h = absurd (omega arith)
Read-items_total o (uint16 ∷ cs) (a ∷ b ∷ bytes) h =
    cons_Read cs _ _ (Read-items_total o cs bytes (omega arith))
Read-items_total o (int16 ∷ cs) [] h = absurd (omega arith)
Read-items_total o (int16 ∷ cs) (a ∷ []) h = absurd (omega arith)
Read-items_total o (int16 ∷ cs) (a ∷ b ∷ bytes) h =
    cons_Read cs _ _ (Read-items_total o cs bytes (omega arith))
Read-items_total o (uint32 ∷ cs) [] h = absurd (omega arith)
Read-items_total o (uint32 ∷ cs) (a ∷ []) h = absurd (omega arith)
Read-items_total o (uint32 ∷ cs) (a ∷ b ∷ []) h = absurd (omega arith)
Read-items_total o (uint32 ∷ cs) (a ∷ b ∷ c ∷ []) h = absurd (omega arith)
Read-items_total o (uint32 ∷ cs) (a ∷ b ∷ c ∷ d ∷ bytes) h =
    cons_Read cs _ _ (Read-items_total o cs bytes (omega arith))

-- The converter of a source takes whatever its format yields.
abbrev pub Converts : FieldSource → Type 0
Converts s =
    (vs : List ℤ)
    → length vs ≡ length s.format.items
    → (v : Value) × (s.converter (to_raw vs) ≡ ok v)

applies_to-fits :
    (s : FieldSource) (n base : ℕ)
    → applies_to s n base ≡ true
    → fits (base + s.offset + size s) n ≡ true
unfolding applies_to
applies_to-fits s n base h =
    elim (Bool-cases (fits (max (base + (s.offset + size s)) (or_zero s.minimum_length)) n)) [
      | inl e ↦ le→fits _ n (omega (arith, fits→le _ n e))
      | inr e ↦ ground arith
    ]

-- Where a source applies, `parse_from` returns a value.
pub parse_from_total :
    (s : FieldSource) (payload : Bytes) (base : ℕ)
    → Converts s
    → applies_to s (length payload) base ≡ true
    → (raw : Raw) × (v : Value) × (parse_from s payload base ≡ ok (raw, v))
unfolding parse_from
parse_from_total s payload base conv h =
    let enough = applies_to-fits s (length payload) base h in
    let (vs, read, counted) =
      Read-items_total s.format.order s.format.items (drop (base + s.offset) payload)
        (omega (arith, fits→le _ _ enough, length-drop (base + s.offset) payload)) in
    let (v, converted) = conv vs counted in (to_raw vs, v, rw (enough, read, converted))

-- Every converter suits its format, and every list has its fixed number of instances.
unfoldable mutual
  pub IsReadySlot : Slot → Type 0
  IsReadySlot (leaf n sources old) = All (λ (e : PacketSchema × FieldSource). Converts e.1) sources
  IsReadySlot (plain n old) = Unit
  IsReadySlot (section n offsets fs) = IsReady fs
  IsReadySlot (repeated n spec items) = (item_count items ≡ spec.count) × IsReadyItems items
  IsReadySlot (not_a_list n spec old) = ⊥

  pub IsReady : Fields → Type 0
  IsReady end = Unit
  IsReady (field s rest) = IsReadySlot s × IsReady rest

  pub IsReadyItems : Items → Type 0
  IsReadyItems stop = Unit
  IsReadyItems (item fs rest) = IsReady fs × IsReadyItems rest
  IsReadyItems (stray v rest) = ⊥

find-All :
    {A : Type 0} (P : A → Type 0) (k : PacketSchema) (sources : List (PacketSchema × A)) (a : A)
    → All (λ (e : PacketSchema × A). P e.1) sources
    → find k sources ≡ some a
    → P a
unfolding find
find-All P k [] a h e = absurd_none e
  where
    absurd_none : {B : Type 0} → none ≡ some a → B
    absurd_none q = cc
find-All P k ((j, x) ∷ sources) a h e = elim (Bool-cases (packet_eq j k)) [
  | inl t ↦ subst P (cc t) h.0
  | inr f ↦ find-All P k sources a h.1 (rw f at e)
]

leaf_total :
    (p : Bytes) (k : PacketSchema) (sources : List (PacketSchema × FieldSource)) (base : ℕ)
    (old : Value)
    → All (λ (e : PacketSchema × FieldSource). Converts e.1) sources
    → (v : Value) × (decode_leaf p k sources base old ≡ ok v)
unfolding decode_leaf
leaf_total p k sources base old h = elim (Option-cases (find k sources)) [
  | inl e ↦ (old, rw e)
  | inr (s, e) ↦ elim (Bool-cases (applies_to s (length p) base)) [
    | inl t ↦
        let (raw, v, parsed) = parse_from_total s p base (find-All Converts k sources s h e) t in
        (v, rw (e, t, parsed))
    | inr f ↦ (old, rw (e, f))
  ]
]

mutual
  unfolding decode_slot IsReady

  slot_total :
      (p : Bytes) (k : PacketSchema) (s : Slot) (base : ℕ)
      → IsReadySlot s
      → (s' : Slot) × (decode_slot p k s base ≡ ok s')
  slot_total p k (leaf n sources old) base h =
      let (v, e) = leaf_total p k sources base old h in (leaf n sources v, rw e)
  slot_total p k (plain n old) base h = (plain n old, refl)
  slot_total p k (section n none fs) base h =
      let (fs', e) = fields_total p k fs base h in (section n none fs', rw e)
  slot_total p k (section n (some offsets) fs) base h = elim (Option-cases (find k offsets)) [
    | inl e ↦ (section n (some offsets) fs, rw e)
    | inr (o, e) ↦
        let (fs', d) = fields_total p k fs (base + o) h in (section n (some offsets) fs', rw (e, d))
  ]
  slot_total p k (repeated n spec items) base h = elim (Option-cases (find k spec.sources)) [
    | inl e ↦ (repeated n spec items, rw e)
    | inr (r, e) ↦
        let (items', d) = items_total p k items (base + r.offset) r.stride 0 h.1 in
        (repeated n spec items', rw (e, (==_iff _ _).1 h.0, d))
  ]
  slot_total p k (not_a_list n spec old) base h = absurd h

  fields_total :
      (p : Bytes) (k : PacketSchema) (fs : Fields) (base : ℕ)
      → IsReady fs
      → (fs' : Fields) × (decode_fields p k fs base ≡ ok fs')
  fields_total p k end base h = (end, refl)
  fields_total p k (field s rest) base h =
      let (s', e) = slot_total p k s base h.0 in
      let (rest', f) = fields_total p k rest base h.1 in (field s' rest', rw (e, f))

  items_total :
      (p : Bytes) (k : PacketSchema) (items : Items) (base stride i : ℕ)
      → IsReadyItems items
      → (items' : Items) × (decode_items p k items base stride i ≡ ok items')
  items_total p k stop base stride i h = (stop, refl)
  items_total p k (item fs rest) base stride i h =
      let (fs', e) = fields_total p k fs (base + i * stride) h.0 in
      let (rest', f) = items_total p k rest base stride (i + 1) h.1 in (item fs' rest', rw (e, f))
  items_total p k (stray v rest) base stride i h = absurd h

-- For an instance whose converters suit their formats and whose lists have their fixed number of
-- instances, `parse_into` raises no error on a payload whose length the packet allows, however
-- short of the fields' ends that is: a field that does not fit is left out.
pub parse_into_total :
    (payload : Bytes) (packet : PacketSchema) (result : Fields)
    → IsReady result
    → validate_payload packet payload ≡ ok tt
    → (result' : Fields) × (parse_into payload packet result ≡ ok result')
unfolding decode
parse_into_total payload packet result ready valid =
    let (result', d) = fields_total payload packet result 0 ready in
    (result', parse_into-eq-decode payload packet result ∙ rw (valid, d))
