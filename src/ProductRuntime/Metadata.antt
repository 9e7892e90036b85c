-- ===== src/ProductRuntime/Metadata.antt =====
-- `TrackedProductData.get_field_metadata` of custom_components/marstek_ble/product_runtime.py, on
-- the metadata that notifications leave. Python's datetime writes the timestamp as a text.
use package.text.Mathlib.Text.{◌==◌ as str_eq}
use text.Mathlib.TextEquality.{eq_iff}
use ha_marstek_ble.Prelude.{
  ℕ, String, Bool, true, false, ◌||◌, ◌⊎◌, inl, inr, Option, none, some, List, [], ◌∷◌, ◌≡◌, refl,
  sym, ap, ◌∙◌, subst, Bool-cases, if◌then◌else◌, ℤ, sub_ℕ,
}
use ha_marstek_ble.Struct.{Bytes}
use ha_marstek_ble.Result.{ok}
use ha_marstek_ble.Text.{Text}
use ha_marstek_ble.Text.Numerals.{padded_hex}
use ha_marstek_ble.Frame.{accepted, check_frame}
use ha_marstek_ble.Schema.Tree.{Fields, DataPath}
use ha_marstek_ble.Marstek.{Update, Updates, insert_update, hex_or_none}
use ha_marstek_ble.ProductRuntime.{
  ProductData, ProductRuntime, parse_payload, parse_notification, known, unique, insert_all,
  mark_path, mark_paths, path_key,
}

-- `field_updates.get(key)`
unfoldable pub find_update : String → Updates → Option Update
find_update key [] = none
find_update key ((k, update) ∷ updates) =
    let later = find_update key updates in if str_eq k key then some update else later

pub record FieldMetadata : Type 0 where
  pub command : ℕ
  pub command_hex : Text
  pub timestamp : String
  pub age : ℤ
  pub payload_hex : Option Text

abbrev pub metadata_of : (ℕ → String) → ℕ → Option Update → Option FieldMetadata
metadata_of isoformat now none = none
metadata_of isoformat now (some entry) = some (record {
  command = entry.command;
  command_hex = b'0' ∷ b'x' ∷ padded_hex 2 entry.command;
  timestamp = isoformat entry.timestamp;
  age = sub_ℕ now entry.timestamp;
  payload_hex = entry.payload_hex;
})

-- `get_field_metadata` of a key, which for a path is its `path_key`, at the time `now`.
unfoldable pub get_field_metadata : (ℕ → String) → ℕ → String → ProductData → Option FieldMetadata
unfolding find_update padded_hex
get_field_metadata isoformat now key d = metadata_of isoformat now (find_update key d.field_updates)

-- The key is that of one of the paths, or one of its aliases.
abbrev pub names_path : (DataPath → List String) → String → List DataPath → Bool
names_path aliases key [] = false
names_path aliases key (path ∷ paths) =
    known key (path_key path ∷ aliases path) || names_path aliases key paths

find_update-insert_update :
    (key field : String) (u : Update) (updates : Updates)
    → find_update key (insert_update field u updates)
      ≡ (if str_eq field key then some u else find_update key updates)
unfolding find_update insert_update
find_update-insert_update key field u [] = refl
find_update-insert_update key field u ((k, old) ∷ updates) = elim (Bool-cases (str_eq k field)) [
  | inl t ↦ elim (Bool-cases (str_eq field key)) [
    | inl s ↦ rw (t, subst (λ (x : String). str_eq x key ≡ true) (sym ((eq_iff k field).0 t)) s, s)
    | inr f ↦ rw (t, subst (λ (x : String). str_eq x key ≡ false) (sym ((eq_iff k field).0 t)) f, f)
  ]
  | inr f ↦ elim (Bool-cases (str_eq k key)) [
    | inl s ↦ rw (f, s, other (Bool-cases (str_eq field key)) s f)
    | inr g ↦ rw (f, g, find_update-insert_update key field u updates)
  ]
]
  where
    clash : str_eq k field ≡ true → str_eq k field ≡ false → ⊥
    clash p q = cc

    other :
        (str_eq field key ≡ true) ⊎ (str_eq field key ≡ false)
        → str_eq k key ≡ true
        → str_eq k field ≡ false
        → str_eq field key ≡ false
    other (inr g) s f = g
    other (inl e) s f =
        let same : k ≡ field = (eq_iff k key).0 s ∙ sym ((eq_iff field key).0 e) in
        absurd (clash ((eq_iff k field).1 same) f)

if_or :
    {A : Type 0} (a b : Bool) (x y : A)
    → (if b then x else if a then x else y) ≡ (if a || b then x else y)
if_or true true x y = refl
if_or true false x y = refl
if_or false true x y = refl
if_or false false x y = refl

find_update-insert_all :
    (key : String) (keys : List String) (u : Update) (updates : Updates)
    → find_update key (insert_all keys u updates)
      ≡ (if known key keys then some u else find_update key updates)
unfolding insert_all
find_update-insert_all key [] u updates = refl
find_update-insert_all key (k ∷ keys) u updates =
    find_update-insert_all key keys u (insert_update k u updates)
    ∙ ap (λ (o : Option Update). if known key keys then some u else o)
        (find_update-insert_update key k u updates)
    ∙ if_or (str_eq k key) (known key keys) (some u) (find_update key updates)

or_shuffle : (a b c s : Bool) → b || (a || s) ≡ c || (a || s) → (a || b) || s ≡ (a || c) || s
or_shuffle true b c s h = refl
or_shuffle false b c s h = h

or_true : (a b : Bool) → a ≡ true → b || a ≡ true
or_true true true h = refl
or_true true false h = refl
or_true false b h = absurd cc

or_false : (b : Bool) → b || false ≡ b
or_false true = refl
or_false false = refl

-- A key that has been seen stands in the rest only if it has been seen.
skip : (a b c s : Bool) → (a ≡ true → s ≡ true) → b || s ≡ c || s → b || s ≡ (a || c) || s
skip true b c s f h = or_true s b (f refl)
skip false b c s f h = h

-- `dict.fromkeys` keeps every key.
known-unique :
    (key : String) (seen keys : List String)
    → known key (unique seen keys) || known key seen ≡ known key keys || known key seen
unfolding unique
known-unique key seen [] = refl
known-unique key seen (k ∷ keys) = elim (Bool-cases (known k seen)) [
  | inl t ↦ rw t (
      skip (str_eq k key) (known key (unique seen keys)) (known key keys) (known key seen)
        (λ e. subst (λ (x : String). known x seen ≡ true) ((eq_iff k key).0 e) t)
        (known-unique key seen keys))
  | inr f ↦ rw f (
      or_shuffle (str_eq k key) (known key (unique (k ∷ seen) keys)) (known key keys)
        (known key seen) (known-unique key (k ∷ seen) keys))
]

find_update-mark_paths :
    (aliases : DataPath → List String) (key : String) (paths : List DataPath)
    (command timestamp : ℕ) (payload : Bytes) (updates : Updates)
    → find_update key (mark_paths aliases paths command timestamp payload updates) ≡ (
        if names_path aliases key paths
        then some
            (record { command = command; timestamp = timestamp; payload_hex = hex_or_none payload })
        else find_update key updates)
unfolding mark_paths mark_path
find_update-mark_paths aliases key [] command timestamp payload updates = refl
find_update-mark_paths aliases key (path ∷ paths) command timestamp payload updates =
    let u : Update = record {
      command = command;
      timestamp = timestamp;
      payload_hex = hex_or_none payload;
    } in
    let keys = path_key path ∷ aliases path in
    let all_keys : known key (unique [] keys) ≡ known key keys =
      sym (or_false (known key (unique [] keys)))
      ∙ known-unique key [] keys
      ∙ or_false (known key keys) in
    find_update-mark_paths aliases key paths command timestamp payload
      (mark_path aliases path command timestamp payload updates)
    ∙ ap (λ (o : Option Update). if names_path aliases key paths then some u else o)
        (find_update-insert_all key (unique [] keys) u updates
          ∙ ap (λ (b : Bool). if b then some u else find_update key updates) all_keys)
    ∙ if_or (known key keys) (names_path aliases key paths) (some u) (find_update key updates)

metadata-if :
    (isoformat : ℕ → String) (now : ℕ) (b : Bool) (u : Update) (o : Option Update)
    → metadata_of isoformat now (if b then some u else o)
      ≡ (if b then metadata_of isoformat now (some u) else metadata_of isoformat now o)
metadata-if isoformat now true u o = refl
metadata-if isoformat now false u o = refl

-- After an accepted frame whose payload updates some paths, the metadata of the keys and aliases of
-- these paths has the frame's command, time and payload, and every other key has the metadata that
-- it had.
pub get_field_metadata-parse_notification :
    (isoformat : ℕ → String) (now : ℕ) (key : String) (runtime : ProductRuntime) (frame : Bytes)
    (timestamp : ℕ) (d : ProductData) (command : ℕ) (payload : Bytes) (paths : List DataPath)
    (fs : Fields)
    → check_frame frame ≡ accepted command payload
    → parse_payload runtime command payload d.fields ≡ (ok (some paths), fs)
    → get_field_metadata isoformat now key (parse_notification runtime frame timestamp d).1 ≡ (
        if names_path runtime.profile.aliases key paths
        then metadata_of isoformat now (
            some (record {
              command = command;
              timestamp = timestamp;
              payload_hex = hex_or_none payload;
            }))
        else get_field_metadata isoformat now key d)
unfolding parse_notification get_field_metadata
get_field_metadata-parse_notification isoformat now key runtime frame timestamp d command payload
      paths fs checked parsed =
    rw (checked, parsed)
      (ap (metadata_of isoformat now) (
          find_update-mark_paths runtime.profile.aliases key paths command timestamp payload
            d.field_updates)
        ∙ metadata-if isoformat now (names_path runtime.profile.aliases key paths) _
            (find_update key d.field_updates))
