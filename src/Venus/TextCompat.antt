-- ===== src/Venus/TextCompat.antt =====
-- The text parsers of venus_runtime.py against those of marstek_device.py, on the instance that
-- holds the same values.
use ha_marstek_ble.Prelude.{
  ℕ, ◌≡◌, refl, String, true, inl, inr, Option, none, some, List, [], ◌∷◌, Bool-cases,
}
use ha_marstek_ble.Struct.{codes}
use ha_marstek_ble.Text.{Text, split_once, strip, text_eq, text_eq→eq}
use ha_marstek_ble.Converter.{Value}
use ha_marstek_ble.Marstek.{MarstekData}
use ha_marstek_ble.Marstek.Texts.{set_device_key, set_network_key, set_pair, set_pairs}
use ha_marstek_ble.Schema.Attributes.{set_in}
use ha_marstek_ble.Venus.{venus_data}
use ha_marstek_ble.Venus.Runtime.{
  Section, device_attribute, network_attribute, store, store_pair, store_pairs,
}

-- A key does to the instance what it does to the data.
abbrev pub KeySame :
    String → (Text → Option String) → (Text → Value → MarstekData → MarstekData) → Type 0
KeySame name mapping set_key =
    (key : Text) (value : Value) (d : MarstekData) (updates : List String)
    → (store name (mapping key) value (venus_data d, updates)).0 ≡ venus_data (set_key key value d)

hw_same :
    (key : Text) (value : Value) (d : MarstekData) (updates : List String)
    → text_eq key (codes "hw") ≡ true
    → (store "device" (device_attribute key) value (venus_data d, updates)).0
      ≡ venus_data (set_device_key key value d)
unfolding device_attribute set_device_key set_in venus_data
hw_same key value d updates h = rw (text_eq→eq key (codes "hw") h)

pub device-KeySame : KeySame "device" device_attribute set_device_key
unfolding device_attribute set_device_key set_in venus_data
device-KeySame key value d updates = elim (Bool-cases (text_eq key (codes "hw"))) [
  | inl h ↦ hw_same key value d updates h
  | inr g ↦ elim (Bool-cases (text_eq key (codes "type"))) [
    | inl e ↦ rw (g, e)
    | inr f0 ↦ elim (Bool-cases (text_eq key (codes "id"))) [
      | inl e ↦ rw (g, f0, e)
      | inr f1 ↦ elim (Bool-cases (text_eq key (codes "sn"))) [
        | inl e ↦ rw (g, f0, f1, e)
        | inr f2 ↦ elim (Bool-cases (text_eq key (codes "mac"))) [
          | inl e ↦ rw (g, f0, f1, f2, e)
          | inr f3 ↦ elim (Bool-cases (text_eq key (codes "dev_ver"))) [
            | inl e ↦ rw (g, f0, f1, f2, f3, e)
            | inr f4 ↦ elim (Bool-cases (text_eq key (codes "fc_ver"))) [
              | inl e ↦ rw (g, f0, f1, f2, f3, f4, e)
              | inr f5 ↦ elim (Bool-cases (text_eq key (codes "fw"))) [
                | inl e ↦ rw (g, f0, f1, f2, f3, f4, f5, e)
                | inr f6 ↦ rw (g, f0, f1, f2, f3, f4, f5, f6)
              ]
            ]
          ]
        ]
      ]
    ]
  ]
]

pub network-KeySame : KeySame "network" network_attribute set_network_key
unfolding network_attribute set_network_key set_in venus_data
network-KeySame key value d updates = elim (Bool-cases (text_eq key (codes "ip"))) [
  | inl e ↦ rw e
  | inr f0 ↦ elim (Bool-cases (text_eq key (codes "gate"))) [
    | inl e ↦ rw (f0, e)
    | inr f1 ↦ elim (Bool-cases (text_eq key (codes "gateway"))) [
      | inl e ↦ rw (f0, f1, e)
      | inr f2 ↦ elim (Bool-cases (text_eq key (codes "mask"))) [
        | inl e ↦ rw (f0, f1, f2, e)
        | inr f3 ↦ elim (Bool-cases (text_eq key (codes "dns"))) [
          | inl e ↦ rw (f0, f1, f2, f3, e)
          | inr f4 ↦ rw (f0, f1, f2, f3, f4)
        ]
      ]
    ]
  ]
]

pair_same :
    (name : String) (mapping : Text → Option String)
    (set_key : Text → Value → MarstekData → MarstekData)
    → KeySame name mapping set_key
    → (pair : Option (Text × Text)) (d : MarstekData) (updates : List String)
    → (store_pair name mapping pair (venus_data d, updates)).0
      ≡ venus_data (set_pair set_key pair d)
unfolding strip
pair_same name mapping set_key same none d updates = refl
pair_same name mapping set_key same (some (key, value)) d updates =
    same (strip key) (Value.text (strip value)) d updates

-- A list of pairs does to the instance what it does to the data.
pub pairs_same :
    (name : String) (mapping : Text → Option String)
    (set_key : Text → Value → MarstekData → MarstekData)
    → KeySame name mapping set_key
    → (separator : ℕ) (pairs : List Text) (d : MarstekData) (s : Section) → s.0 ≡ venus_data d
    → (store_pairs name mapping separator pairs s).0
      ≡ venus_data (set_pairs separator set_key pairs d)
unfolding store_pairs set_pairs
pairs_same name mapping set_key same separator [] d s e = e
pairs_same name mapping set_key same separator (pair ∷ pairs) d (fs, updates) e =
    pairs_same name mapping set_key same separator pairs
      (set_pair set_key (split_once separator pair) d)
      (store_pair name mapping (split_once separator pair) (fs, updates))
      (rw e (pair_same name mapping set_key same (split_once separator pair) d updates))
