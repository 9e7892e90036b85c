-- ===== src/ProductRuntime/Ready.antt =====
-- The data of a product under the notifications of
-- custom_components/marstek_ble/product_runtime.py, and the converters of its fields.
use ha_marstek_ble.Prelude.{
  ℕ, ◌≡◌, refl, sym, String, inl, inr, Option, none, some, List, [], ◌∷◌, ◌==◌, All, Bool-cases,
  subst,
}
use ha_marstek_ble.Struct.{Bytes}
use ha_marstek_ble.Result.{Result, ok, err, ◌>>=◌}
use ha_marstek_ble.Frame.{Checked, accepted, refused, check_frame}
use ha_marstek_ble.Schema.{PacketSchema, validate_payload}
use ha_marstek_ble.Schema.Tree.{Fields, DataPath, ParsedField, parsed_fields, apply_all, parse_into}
use ha_marstek_ble.Schema.Total.{IsReady}
use ha_marstek_ble.Schema.Ready.{parse_into-IsReady}
use ha_marstek_ble.Marstek.{Updates}
use ha_marstek_ble.ProductRuntime.{
  PayloadParser, ProductData, ProductRuntime, Parsed, parser_of, packet_of, parse_by, parse_payload,
  checked, written, noted, parse_checked, parse_notification, receive,
}

-- A parser leaves an instance ready for the next packet.
abbrev pub KeepsReady : PayloadParser → Type 0
KeepsReady parser = (payload : Bytes) (fs : Fields) → IsReady fs → IsReady (parser payload fs).1

written-IsReady :
    (payload : Bytes) (packet : PacketSchema) (fs : Fields)
    → IsReady fs
    → IsReady (written (parsed_fields payload packet fs) fs).1
unfolding parse_into
written-IsReady payload packet fs ready =
    from (parsed_fields payload packet fs) λ fs' e. parse_into-IsReady payload packet fs fs' e ready
  where
    from :
        (m : Result (List ParsedField))
        → ((fs' : Fields)
            → (m >>= λ (us : List ParsedField). ok (apply_all us fs)) ≡ ok fs'
            → IsReady fs')
        → IsReady (written m fs).1
    from (ok us) k = k (apply_all us fs) refl
    from (err x) k = ready

checked-IsReady :
    (check : Result (Unit {0})) (fs : Fields) (rest : Parsed)
    → IsReady fs
    → IsReady rest.1
    → IsReady (checked check fs rest).1
checked-IsReady (ok tt) fs rest h k = k
checked-IsReady (err e) fs rest h k = h

abbrev KeepsOption : Option PayloadParser → Type 0
KeepsOption none = Unit
KeepsOption (some parser) = KeepsReady parser

parse_by-IsReady :
    (packet : Option PacketSchema) (parser : Option PayloadParser) (payload : Bytes) (fs : Fields)
    → KeepsOption parser
    → IsReady fs
    → IsReady (parse_by packet parser payload fs).1
parse_by-IsReady none none payload fs k h = h
parse_by-IsReady (some packet) none payload fs k h =
    checked-IsReady (validate_payload packet payload) fs _ h (written-IsReady payload packet fs h)
parse_by-IsReady none (some parser) payload fs k h = k payload fs h
parse_by-IsReady (some packet) (some parser) payload fs k h =
    checked-IsReady (validate_payload packet payload) fs _ h (k payload fs h)

parser_of-KeepsReady :
    (command : ℕ) (parsers : List (ℕ × PayloadParser))
    → All (λ (p : ℕ × PayloadParser). KeepsReady p.1) parsers
    → KeepsOption (parser_of command parsers)
unfolding parser_of
parser_of-KeepsReady command [] a = tt
parser_of-KeepsReady command ((key, parser) ∷ parsers) (a, rest) =
    elim (Bool-cases (command == key)) [
      | inl t ↦ rw t a
      | inr f ↦ rw f (parser_of-KeepsReady command parsers rest)
    ]

noted-fields :
    (aliases : DataPath → List String) (command : ℕ) (payload : Bytes) (timestamp : ℕ)
    (updates : Updates) (r : Parsed)
    → (noted aliases command payload timestamp updates r).1.fields ≡ r.1
noted-fields aliases command payload timestamp updates (ok none, fs) = refl
noted-fields aliases command payload timestamp updates (ok (some paths), fs) = refl
noted-fields aliases command payload timestamp updates (err e, fs) = refl

-- No notification makes a ready instance one that is not.
pub parse_notification-IsReady :
    (runtime : ProductRuntime) (frame : Bytes) (timestamp : ℕ) (d : ProductData)
    → All (λ (e : ℕ × PayloadParser). KeepsReady e.1) runtime.payload_parsers
    → IsReady d.fields
    → IsReady (parse_notification runtime frame timestamp d).1.fields
unfolding parse_notification parse_payload
parse_notification-IsReady runtime frame timestamp d parsers h = from (check_frame frame)
  where
    from : (c : Checked) → IsReady (parse_checked runtime c timestamp d).1.fields
    from (refused r) = h
    from (accepted command payload) =
        subst IsReady
          (sym (noted-fields runtime.profile.aliases command payload timestamp d.field_updates _))
          (parse_by-IsReady (packet_of command runtime.profile.packets)
            (parser_of command runtime.payload_parsers) payload d.fields
            (parser_of-KeepsReady command runtime.payload_parsers parsers) h)

pub receive-IsReady :
    (runtime : ProductRuntime) (frames : List (Bytes × ℕ)) (d : ProductData)
    → All (λ (e : ℕ × PayloadParser). KeepsReady e.1) runtime.payload_parsers
    → IsReady d.fields
    → IsReady (receive runtime frames d).fields
unfolding receive
receive-IsReady runtime [] d parsers h = h
receive-IsReady runtime ((frame, timestamp) ∷ rest) d parsers h =
    receive-IsReady runtime rest (parse_notification runtime frame timestamp d).1 parsers
      (parse_notification-IsReady runtime frame timestamp d parsers h)
