-- ===== src/Schema/OnePass.antt =====
-- The two phases of `parse_into`, decode everything and then write, against a single recursion
-- over the instance that decodes each field where it stands.
use ha_marstek_ble.Prelude.{
  ℕ, ◌+◌, ◌*◌, ◌≡◌, refl, ap, String, Bool, true, false, not, inl, inr, Option, none, some, List,
  [], ◌∷◌, ◌++◌, map, ◌==◌, if◌then◌else◌, length, arith, Option-cases,
}
use ha_marstek_ble.Struct.{Bytes}
use ha_marstek_ble.Result.{value_error, type_error, Result, ok, err, ◌>>=◌, ◌>>◌, raise_if}
use ha_marstek_ble.Converter.{Value}
use ha_marstek_ble.Schema.{
  PacketSchema, validate_payload, find, FieldSource, if_found, applies_to, parse_from, RepeatedSpec,
}
use ha_marstek_ble.Schema.Tree.{
  Slot, leaf, plain, section, repeated, not_a_list, Fields, end, field, Items, stop, item, stray,
  PathElement, DataPath, later, ParsedField, under, joined, item_count, iter_leaf, iter_slot,
  iter_fields, iter_items, set_slot, set_fields, set_items, apply_all, parsed_fields, parse_into,
}

-- The value of a field after a packet: converted from the payload if a source of the packet
-- applies, else the old one.
unfoldable pub decode_leaf :
    Bytes → PacketSchema → List (PacketSchema × FieldSource) → ℕ → Value → Result Value
unfolding find applies_to parse_from
decode_leaf payload packet sources base old = if_found (find packet sources) (ok old) λ source.
    if applies_to source (length payload) base
    then (do (_, value) ← parse_from source payload base; ok value)
    else ok old

unfoldable mutual
  unfolding decode_leaf find

  pub decode_slot : Bytes → PacketSchema → Slot → ℕ → Result Slot
  decode_slot payload packet (leaf n sources old) base = do
    value ← decode_leaf payload packet sources base old
    ok (leaf n sources value)
  decode_slot payload packet (plain n old) base = ok (plain n old)
  decode_slot payload packet (section n none fs) base = do
    fs' ← decode_fields payload packet fs base
    ok (section n none fs')
  decode_slot payload packet (section n (some offsets) fs) base =
      if_found (find packet offsets) (ok (section n (some offsets) fs)) λ offset. do
        fs' ← decode_fields payload packet fs (base + offset)
        ok (section n (some offsets) fs')
  decode_slot payload packet (repeated n spec items) base =
      if_found (find packet spec.sources) (ok (repeated n spec items)) λ r. do
        raise_if (not (item_count items == spec.count)) value_error
        items' ← decode_items payload packet items (base + r.offset) r.stride 0
        ok (repeated n spec items')
  decode_slot payload packet (not_a_list n spec old) base =
      if_found (find packet spec.sources) (ok (not_a_list n spec old)) λ r. err type_error

  pub decode_fields : Bytes → PacketSchema → Fields → ℕ → Result Fields
  decode_fields payload packet end base = ok end
  decode_fields payload packet (field s rest) base = do
    s' ← decode_slot payload packet s base
    rest' ← decode_fields payload packet rest base
    ok (field s' rest')

  pub decode_items : Bytes → PacketSchema → Items → ℕ → ℕ → ℕ → Result Items
  decode_items payload packet stop base stride i = ok stop
  decode_items payload packet (item fs rest) base stride i = do
    fs' ← decode_fields payload packet fs (base + i * stride)
    rest' ← decode_items payload packet rest base stride (i + 1)
    ok (item fs' rest')
  decode_items payload packet (stray _ rest) base stride i = err type_error

-- Updates of a slot and of a list of items, written in turn.
apply_slot : List ParsedField → Slot → Slot
apply_slot [] s = s
apply_slot (u ∷ us) s = apply_slot us (set_slot u.target u.value s)

apply_items : List ParsedField → Items → Items
apply_items [] items = items
apply_items (u ∷ us) items = apply_items us (set_items u.target u.value items)

apply_all-later :
    (vs : List ParsedField) (s : Slot) (rest : Fields)
    → apply_all (map (under later) vs) (field s rest) ≡ field s (apply_all vs rest)
unfolding apply_all set_fields
apply_all-later [] s rest = refl
apply_all-later (v ∷ vs) s rest = apply_all-later vs s (set_fields v.target v.value rest)

apply_all-joined :
    (us vs : List ParsedField) (s : Slot) (rest : Fields)
    → apply_all (joined us vs) (field s rest) ≡ field (apply_slot us s) (apply_all vs rest)
unfolding apply_all set_fields apply_slot
apply_all-joined [] vs s rest = apply_all-later vs s rest
apply_all-joined (u ∷ us) vs s rest = apply_all-joined us vs (set_slot u.target u.value s) rest

apply_items-later :
    (vs : List ParsedField) (fs : Fields) (rest : Items)
    → apply_items (map (under later) vs) (item fs rest) ≡ item fs (apply_items vs rest)
unfolding apply_items set_items
apply_items-later [] fs rest = refl
apply_items-later (v ∷ vs) fs rest = apply_items-later vs fs (set_items v.target v.value rest)

apply_items-joined :
    (us vs : List ParsedField) (fs : Fields) (rest : Items)
    → apply_items (joined us vs) (item fs rest) ≡ item (apply_all us fs) (apply_items vs rest)
unfolding apply_items set_items apply_all
apply_items-joined [] vs fs rest = apply_items-later vs fs rest
apply_items-joined (u ∷ us) vs fs rest =
    apply_items-joined us vs (set_fields u.target u.value fs) rest

apply_slot-section :
    (us : List ParsedField) (n : String) (o : Option (List (PacketSchema × ℕ))) (fs : Fields)
    → apply_slot us (section n o fs) ≡ section n o (apply_all us fs)
unfolding apply_slot set_slot apply_all
apply_slot-section [] n o fs = refl
apply_slot-section (u ∷ us) n o fs = apply_slot-section us n o (set_fields u.target u.value fs)

apply_slot-repeated :
    (us : List ParsedField) (n : String) (spec : RepeatedSpec) (items : Items)
    → apply_slot us (repeated n spec items) ≡ repeated n spec (apply_items us items)
unfolding apply_slot set_slot apply_items
apply_slot-repeated [] n spec items = refl
apply_slot-repeated (u ∷ us) n spec items =
    apply_slot-repeated us n spec (set_items u.target u.value items)

-- Two phases that agree with one pass on each part agree on the whole.
join_passes :
    {S R T : Type 0} (mu mv : Result (List ParsedField)) (fu : List ParsedField → S)
    (fv : List ParsedField → R) (g : List ParsedField → T) (h : S → R → T) (a : Result S)
    (b : Result R)
    → ((us vs : List ParsedField) → g (joined us vs) ≡ h (fu us) (fv vs))
    → (mu >>= λ us. ok (fu us)) ≡ a
    → (mv >>= λ vs. ok (fv vs)) ≡ b
    → ((mu >>= λ us. mv >>= λ vs. ok (joined us vs)) >>= λ ws. ok (g ws))
      ≡ (a >>= λ s. b >>= λ r. ok (h s r))
join_passes (ok us) (ok vs) fu fv g h a b e p q = rw (← p, ← q) (ap ok (e us vs))
join_passes (ok us) (err x) fu fv g h a b e p q = rw (← p, ← q)
join_passes (err x) mv fu fv g h a b e p q = rw (← p)

wrap_passes :
    {S T : Type 0} (m : Result (List ParsedField)) (f : List ParsedField → S)
    (g : List ParsedField → T) (c : S → T) (a : Result S)
    → ((us : List ParsedField) → g us ≡ c (f us))
    → (m >>= λ us. ok (f us)) ≡ a
    → (m >>= λ us. ok (g us)) ≡ (a >>= λ s. ok (c s))
wrap_passes (ok us) f g c a e p = rw (← p) (ap ok (e us))
wrap_passes (err x) f g c a e p = rw (← p)

guarded_passes :
    {S T : Type 0} (test : Bool) (m : Result (List ParsedField)) (f : List ParsedField → S)
    (g : List ParsedField → T) (c : S → T) (a : Result S)
    → ((us : List ParsedField) → g us ≡ c (f us))
    → (m >>= λ us. ok (f us)) ≡ a
    → ((raise_if (not test) value_error >> m) >>= λ us. ok (g us))
      ≡ (raise_if (not test) value_error >>= λ _. a >>= λ s. ok (c s))
guarded_passes true m f g c a e p = wrap_passes m f g c a e p
guarded_passes false m f g c a e p = refl

leaf_passes :
    (p : Bytes) (k : PacketSchema) (n : String) (sources : List (PacketSchema × FieldSource))
    (old : Value) (base : ℕ) (path : DataPath)
    → (iter_leaf p k sources base path >>= λ us. ok (apply_slot us (leaf n sources old)))
      ≡ (decode_leaf p k sources base old >>= λ value. ok (leaf n sources value))
unfolding iter_leaf decode_leaf apply_slot set_slot
leaf_passes p k n sources old base path = ground arith

mutual
  unfolding iter_slot decode_slot apply_slot apply_all apply_items

  slot_passes :
      (p : Bytes) (k : PacketSchema) (s : Slot) (base : ℕ) (path : DataPath)
      → (iter_slot p k s base path >>= λ us. ok (apply_slot us s)) ≡ decode_slot p k s base
  slot_passes p k (leaf n sources old) base path =
      leaf_passes p k n sources old base (path ++ PathElement.name n ∷ [])
  slot_passes p k (plain n old) base path = refl
  slot_passes p k (section n none fs) base path =
      wrap_passes (iter_fields p k fs base (path ++ PathElement.name n ∷ []))
        (λ us. apply_all us fs) (λ us. apply_slot us (section n none fs)) (section n none)
        (decode_fields p k fs base) (λ us. apply_slot-section us n none fs)
        (fields_passes p k fs base (path ++ PathElement.name n ∷ []))
  slot_passes p k (section n (some offsets) fs) base path = elim (Option-cases (find k offsets)) [
    | inl e ↦ rw e
    | inr (o, e) ↦ rw e (
        wrap_passes (iter_fields p k fs (base + o) (path ++ PathElement.name n ∷ []))
          (λ us. apply_all us fs) (λ us. apply_slot us (section n (some offsets) fs))
          (section n (some offsets)) (decode_fields p k fs (base + o))
          (λ us. apply_slot-section us n (some offsets) fs)
          (fields_passes p k fs (base + o) (path ++ PathElement.name n ∷ [])))
  ]
  slot_passes p k (repeated n spec items) base path = elim (Option-cases (find k spec.sources)) [
    | inl e ↦ rw e
    | inr (r, e) ↦ rw e (
        guarded_passes (item_count items == spec.count)
          (iter_items p k items (base + r.offset) r.stride (path ++ PathElement.name n ∷ []) 0)
          (λ us. apply_items us items) (λ us. apply_slot us (repeated n spec items))
          (repeated n spec) (decode_items p k items (base + r.offset) r.stride 0)
          (λ us. apply_slot-repeated us n spec items)
          (items_passes p k items (base + r.offset) r.stride (path ++ PathElement.name n ∷ []) 0))
  ]
  slot_passes p k (not_a_list n spec old) base path = elim (Option-cases (find k spec.sources)) [
    | inl e ↦ rw e
    | inr (r, e) ↦ rw e
  ]

  fields_passes :
      (p : Bytes) (k : PacketSchema) (fs : Fields) (base : ℕ) (path : DataPath)
      → (iter_fields p k fs base path >>= λ us. ok (apply_all us fs)) ≡ decode_fields p k fs base
  fields_passes p k end base path = refl
  fields_passes p k (field s rest) base path =
      join_passes (iter_slot p k s base path) (iter_fields p k rest base path)
        (λ us. apply_slot us s) (λ vs. apply_all vs rest) (λ ws. apply_all ws (field s rest)) field
        (decode_slot p k s base) (decode_fields p k rest base)
        (λ us vs. apply_all-joined us vs s rest) (slot_passes p k s base path)
        (fields_passes p k rest base path)

  items_passes :
      (p : Bytes) (k : PacketSchema) (items : Items) (base stride : ℕ) (path : DataPath) (i : ℕ)
      → (iter_items p k items base stride path i >>= λ us. ok (apply_items us items))
        ≡ decode_items p k items base stride i
  items_passes p k stop base stride path i = refl
  items_passes p k (item fs rest) base stride path i =
      join_passes (iter_fields p k fs (base + i * stride) (path ++ PathElement.index i ∷ []))
        (iter_items p k rest base stride path (i + 1)) (λ us. apply_all us fs)
        (λ vs. apply_items vs rest) (λ ws. apply_items ws (item fs rest)) item
        (decode_fields p k fs (base + i * stride)) (decode_items p k rest base stride (i + 1))
        (λ us vs. apply_items-joined us vs fs rest)
        (fields_passes p k fs (base + i * stride) (path ++ PathElement.index i ∷ []))
        (items_passes p k rest base stride path (i + 1))
  items_passes p k (stray v rest) base stride path i = refl

after_check :
    {A B : Type 0} (check : Result (Unit {0})) (m : Result A) (f : A → B) (a : Result B)
    → (m >>= λ x. ok (f x)) ≡ a
    → ((check >> m) >>= λ x. ok (f x)) ≡ (check >> a)
after_check (ok x) m f a e = e
after_check (err x) m f a e = refl

-- `parse_into` without its list of updates: the length is checked, and each field is decoded where
-- it stands.
unfoldable pub decode : Bytes → PacketSchema → Fields → Result Fields
unfolding decode_fields validate_payload
decode payload packet result =
    validate_payload packet payload >> decode_fields payload packet result 0

-- `parse_into`, which decodes every field before it writes one, returns the same instance as the
-- single pass that writes each field at once, and raises the same error where that raises.
pub parse_into-eq-decode :
    (payload : Bytes) (packet : PacketSchema) (result : Fields)
    → parse_into payload packet result ≡ decode payload packet result
unfolding parse_into parsed_fields decode
parse_into-eq-decode payload packet result =
    after_check (validate_payload packet payload) (iter_fields payload packet result 0 [])
      (λ us. apply_all us result) (decode_fields payload packet result 0)
      (fields_passes payload packet result 0 [])
