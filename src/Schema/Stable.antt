-- ===== src/Schema/Stable.antt =====
-- The shape of an instance under `parse_into` of schema.py, and a second parse of the same
-- payload.
use ha_marstek_ble.Prelude.{
  ℕ, suc, ◌+◌, ◌*◌, ◌≡◌, refl, sym, ap, ◌∙◌, Bool, true, false, not, inl, inr, none, some, List,
  ◌==◌, arith, Option-cases,
}
use ha_marstek_ble.Struct.{Bytes}
use ha_marstek_ble.Result.{Error, value_error, Result, ok, err, ◌>>=◌, ◌>>◌, raise_if}
use ha_marstek_ble.Converter.{Value, null}
use ha_marstek_ble.Schema.{PacketSchema, validate_payload, find, FieldSource}
use ha_marstek_ble.Schema.Tree.{
  Slot, leaf, plain, section, repeated, not_a_list, Fields, end, field, Items, stop, item, stray,
  item_count, parse_into,
}
use ha_marstek_ble.Schema.OnePass.{
  decode_leaf, decode_slot, decode_fields, decode_items, decode, parse_into-eq-decode,
}

-- An instance without the values of its packet fields.
unfoldable mutual
  pub shape_slot : Slot → Slot
  shape_slot (leaf n sources old) = leaf n sources null
  shape_slot (plain n old) = plain n old
  shape_slot (section n offsets fs) = section n offsets (shape fs)
  shape_slot (repeated n spec items) = repeated n spec (shape_items items)
  shape_slot (not_a_list n spec old) = not_a_list n spec old

  pub shape : Fields → Fields
  shape end = end
  shape (field s rest) = field (shape_slot s) (shape rest)

  pub shape_items : Items → Items
  shape_items stop = stop
  shape_items (item fs rest) = item (shape fs) (shape_items rest)
  shape_items (stray v rest) = stray v (shape_items rest)

module _ {A B T : Type 0} where
  -- Inversion of two steps and of one.
  pub join_ok :
      (a : Result A) (b : Result B) (h : A → B → T) {t : T}
      → (a >>= λ x. b >>= λ y. ok (h x y)) ≡ ok t
      → (x : A) × (y : B) × (a ≡ ok x) × (b ≡ ok y) × (t ≡ h x y)
  join_ok (ok x) (ok y) h e = (x, y, refl, refl, cc)
  join_ok (ok x) (err y) h e = cc
  join_ok (err x) b h e = cc

module _ {A T : Type 0} where
  pub wrap_ok :
      (a : Result A) (h : A → T) {t : T}
      → (a >>= λ x. ok (h x)) ≡ ok t
      → (x : A) × (a ≡ ok x) × (t ≡ h x)
  wrap_ok (ok x) h e = (x, refl, cc)
  wrap_ok (err x) h e = cc

guard_ok :
    {A : Type 0} (test : Bool) (e : Error) (m : Result A) {a : A}
    → (raise_if (not test) e >> m) ≡ ok a
    → (test ≡ true) × (m ≡ ok a)
guard_ok true e m h = (refl, h)
guard_ok false e m h = cc

ok_inj : {A : Type 0} {a b : A} → ok a ≡ ok b → a ≡ b
ok_inj h = cc

absurd_ok : {A B : Type 0} {a : A} {x : Error} → err x ≡ ok a → B
absurd_ok h = cc

decode_leaf_again :
    (p : Bytes) (k : PacketSchema) (sources : List (PacketSchema × FieldSource)) (base : ℕ)
    (old new : Value)
    → decode_leaf p k sources base old ≡ ok new
    → decode_leaf p k sources base new ≡ ok new
unfolding decode_leaf
decode_leaf_again p k sources base old new h = ground arith

item_count-decode :
    (p : Bytes) (k : PacketSchema) (items : Items) (base stride i : ℕ) {items' : Items}
    → decode_items p k items base stride i ≡ ok items'
    → item_count items' ≡ item_count items
unfolding decode_items
item_count-decode p k stop base stride i h = cc
item_count-decode p k (item fs rest) base stride i h =
    let (fs', rest', hf, hr, e) = join_ok _ _ item h in
    rw e (ap suc (item_count-decode p k rest base stride (i + 1) hr))
item_count-decode p k (stray v rest) base stride i h = cc

-- The new part has the shape of the old one, and another parse leaves it as it is.
mutual
  unfolding decode_slot decode_leaf

  slot_again :
      (p : Bytes) (k : PacketSchema) (s : Slot) (base : ℕ) (s' : Slot)
      → decode_slot p k s base ≡ ok s'
      → decode_slot p k s' base ≡ ok s'
  slot_again p k (leaf n sources old) base s' h =
      let (new, hn, e) = wrap_ok (decode_leaf p k sources base old) (leaf n sources) h in
      rw (e, decode_leaf_again p k sources base old new hn)
  slot_again p k (plain n old) base s' h = rw (← ok_inj h)
  slot_again p k (section n none fs) base s' h =
      let (fs', hf, e) = wrap_ok _ (section n none) h in rw (e, fields_again p k fs base fs' hf)
  slot_again p k (section n (some offsets) fs) base s' h = elim (Option-cases (find k offsets)) [
    | inl e ↦ rw (← ok_inj (rw e at h)) (rw e)
    | inr (o, e) ↦
        let (fs', hf, es) =
          wrap_ok (decode_fields p k fs (base + o)) (section n (some offsets)) (rw e at h) in
        rw (es, e, fields_again p k fs (base + o) fs' hf)
  ]
  slot_again p k (repeated n spec items) base s' h = elim (Option-cases (find k spec.sources)) [
    | inl e ↦ rw (← ok_inj (rw e at h)) (rw e)
    | inr (r, e) ↦
        let (counted, hi) = guard_ok (item_count items == spec.count) value_error _ (rw e at h) in
        let (items', hd, es) =
          wrap_ok (decode_items p k items (base + r.offset) r.stride 0) (repeated n spec) hi in
        rw (
          es,
          e,
          item_count-decode p k items (base + r.offset) r.stride 0 hd,
          counted,
          items_again p k items (base + r.offset) r.stride 0 items' hd,
        )
  ]
  slot_again p k (not_a_list n spec old) base s' h = elim (Option-cases (find k spec.sources)) [
    | inl e ↦ rw (← ok_inj (rw e at h)) (rw e)
    | inr (r, e) ↦ absurd_ok (rw e at h)
  ]

  fields_again :
      (p : Bytes) (k : PacketSchema) (fs : Fields) (base : ℕ) (fs' : Fields)
      → decode_fields p k fs base ≡ ok fs'
      → decode_fields p k fs' base ≡ ok fs'
  fields_again p k end base fs' h = rw (← ok_inj h)
  fields_again p k (field s rest) base fs' h =
      let (s', rest', hs, hr, e) = join_ok _ _ field h in
      rw (e, slot_again p k s base s' hs, fields_again p k rest base rest' hr)

  items_again :
      (p : Bytes) (k : PacketSchema) (items : Items) (base stride i : ℕ) (items' : Items)
      → decode_items p k items base stride i ≡ ok items'
      → decode_items p k items' base stride i ≡ ok items'
  items_again p k stop base stride i items' h = rw (← ok_inj h)
  items_again p k (item fs rest) base stride i items' h =
      let (fs', rest', hf, hr, e) = join_ok _ _ item h in
      rw (
        e,
        fields_again p k fs (base + i * stride) fs' hf,
        items_again p k rest base stride (i + 1) rest' hr,
      )
  items_again p k (stray v rest) base stride i items' h = cc

mutual
  unfolding decode_slot shape

  shape_slot-decode :
      (p : Bytes) (k : PacketSchema) (s : Slot) (base : ℕ) (s' : Slot)
      → decode_slot p k s base ≡ ok s'
      → shape_slot s' ≡ shape_slot s
  shape_slot-decode p k (leaf n sources old) base s' h =
      let (new, hn, e) = wrap_ok (decode_leaf p k sources base old) (leaf n sources) h in rw e
  shape_slot-decode p k (plain n old) base s' h = rw (← ok_inj h)
  shape_slot-decode p k (section n none fs) base s' h =
      let (fs', hf, e) = wrap_ok _ (section n none) h in rw (e, shape-decode p k fs base fs' hf)
  shape_slot-decode p k (section n (some offsets) fs) base s' h =
      elim (Option-cases (find k offsets)) [
        | inl e ↦ rw (← ok_inj (rw e at h))
        | inr (o, e) ↦
            let (fs', hf, es) =
              wrap_ok (decode_fields p k fs (base + o)) (section n (some offsets)) (rw e at h) in
            rw (es, shape-decode p k fs (base + o) fs' hf)
      ]
  shape_slot-decode p k (repeated n spec items) base s' h =
      elim (Option-cases (find k spec.sources)) [
        | inl e ↦ rw (← ok_inj (rw e at h))
        | inr (r, e) ↦
            let (counted, hi) =
              guard_ok (item_count items == spec.count) value_error _ (rw e at h) in
            let (items', hd, es) =
              wrap_ok (decode_items p k items (base + r.offset) r.stride 0) (repeated n spec) hi in
            rw (es, shape_items-decode p k items (base + r.offset) r.stride 0 items' hd)
      ]
  shape_slot-decode p k (not_a_list n spec old) base s' h =
      elim (Option-cases (find k spec.sources)) [
        | inl e ↦ rw (← ok_inj (rw e at h))
        | inr (r, e) ↦ absurd_ok (rw e at h)
      ]

  shape-decode :
      (p : Bytes) (k : PacketSchema) (fs : Fields) (base : ℕ) (fs' : Fields)
      → decode_fields p k fs base ≡ ok fs'
      → shape fs' ≡ shape fs
  shape-decode p k end base fs' h = rw (← ok_inj h)
  shape-decode p k (field s rest) base fs' h =
      let (s', rest', hs, hr, e) = join_ok _ _ field h in
      rw (e, shape_slot-decode p k s base s' hs, shape-decode p k rest base rest' hr)

  shape_items-decode :
      (p : Bytes) (k : PacketSchema) (items : Items) (base stride i : ℕ) (items' : Items)
      → decode_items p k items base stride i ≡ ok items'
      → shape_items items' ≡ shape_items items
  shape_items-decode p k stop base stride i items' h = rw (← ok_inj h)
  shape_items-decode p k (item fs rest) base stride i items' h =
      let (fs', rest', hf, hr, e) = join_ok _ _ item h in
      rw (
        e,
        shape-decode p k fs (base + i * stride) fs' hf,
        shape_items-decode p k rest base stride (i + 1) rest' hr,
      )
  shape_items-decode p k (stray v rest) base stride i items' h = cc

checked_ok :
    {A : Type 0} (check : Result (Unit {0})) (m : Result A) {a : A}
    → (check >> m) ≡ ok a
    → (check ≡ ok tt) × (m ≡ ok a)
checked_ok (ok tt) m h = (refl, h)
checked_ok (err e) m h = cc

decoded :
    (p : Bytes) (k : PacketSchema) (fs fs' : Fields)
    → parse_into p k fs ≡ ok fs'
    → (validate_payload k p ≡ ok tt) × (decode_fields p k fs 0 ≡ ok fs')
unfolding decode
decoded p k fs fs' h =
    checked_ok (validate_payload k p) (decode_fields p k fs 0)
      (sym (parse_into-eq-decode p k fs) ∙ h)

-- Parsing a payload a second time changes nothing more: the values that a packet supplies depend on
-- the payload alone.
pub parse_into_again :
    (payload : Bytes) (packet : PacketSchema) (result result' : Fields)
    → parse_into payload packet result ≡ ok result'
    → parse_into payload packet result' ≡ ok result'
unfolding decode
parse_into_again payload packet result result' h =
    let (valid, fields) = decoded payload packet result result' h in
    parse_into-eq-decode payload packet result'
    ∙ rw (valid, fields_again payload packet result 0 result' fields)

-- Parsing keeps the fields of an instance, their order, their sources, the number of items of each
-- list and every value that has no packet source.
pub shape-parse_into :
    (payload : Bytes) (packet : PacketSchema) (result result' : Fields)
    → parse_into payload packet result ≡ ok result'
    → shape result' ≡ shape result
shape-parse_into payload packet result result' h =
    shape-decode payload packet result 0 result' (decoded payload packet result result' h).1
