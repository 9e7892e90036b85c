-- ===== src/ProductRuntime/Safety.antt =====
-- Notifications that custom_components/marstek_ble/product_runtime.py does not accept.
use ha_marstek_ble.Prelude.{
  ℕ, String, ◌≡◌, refl, false, inl, inr, Option, none, some, List, [], ◌∷◌, ◌==◌, All, Bool-cases,
}
use ha_marstek_ble.Struct.{Bytes}
use ha_marstek_ble.Result.{Error, Result, ok, err}
use ha_marstek_ble.Frame.{Checked, accepted, refused, check_frame}
use ha_marstek_ble.Schema.{PacketSchema, validate_payload}
use ha_marstek_ble.Schema.Tree.{Fields, DataPath, ParsedField, parsed_fields}
use ha_marstek_ble.Marstek.{Updates}
use ha_marstek_ble.ProductRuntime.{
  PayloadParser, ProductData, ProductRuntime, Parsed, parser_of, packet_of, parse_by, parse_payload,
  checked, written, noted, parse_checked, parse_notification,
}

-- What reports no update leaves the fields as they were.
abbrev pub IsKept : Fields → Parsed → Type 0
IsKept fs (ok (some paths), fs') = Unit
IsKept fs (ok none, fs') = fs' ≡ fs
IsKept fs (err e, fs') = fs' ≡ fs

-- A parser that raises or returns None has written nothing.
abbrev pub IsAtomic : PayloadParser → Type 0
IsAtomic parser = (payload : Bytes) (fs : Fields) → IsKept fs (parser payload fs)

-- No update means that the instance is the given one.
abbrev Unwritten : Fields → Parsed → Type 0
Unwritten fs p =
    (aliases : DataPath → List String) (command timestamp : ℕ) (payload : Bytes) (updates : Updates)
    → (noted aliases command payload timestamp updates p).0 ≡ false
    → (noted aliases command payload timestamp updates p).1
      ≡ record { fields = fs; field_updates = updates }

Unwritten-err : (fs : Fields) (e : Error) → Unwritten fs (err e, fs)
Unwritten-err fs e aliases command timestamp payload updates h = refl

written-Unwritten : (m : Result (List ParsedField)) (fs : Fields) → Unwritten fs (written m fs)
written-Unwritten (ok us) fs aliases command timestamp payload updates h = absurd cc
written-Unwritten (err e) fs aliases command timestamp payload updates h = refl

parser-Unwritten : (r : Parsed) (fs : Fields) → IsKept fs r → Unwritten fs r
parser-Unwritten (ok (some paths), fs') fs k aliases command timestamp payload updates h = absurd cc
parser-Unwritten (ok none, fs') fs k aliases command timestamp payload updates h = rw k
parser-Unwritten (err e, fs') fs k aliases command timestamp payload updates h = rw k

checked-Unwritten :
    (check : Result (Unit {0})) (fs : Fields) (rest : Parsed)
    → Unwritten fs rest
    → Unwritten fs (checked check fs rest)
checked-Unwritten (ok tt) fs rest u = u
checked-Unwritten (err e) fs rest u = Unwritten-err fs e

abbrev AtomicOption : Option PayloadParser → Type 0
AtomicOption none = Unit
AtomicOption (some parser) = IsAtomic parser

parse_by-Unwritten :
    (packet : Option PacketSchema) (parser : Option PayloadParser) (payload : Bytes) (fs : Fields)
    → AtomicOption parser
    → Unwritten fs (parse_by packet parser payload fs)
parse_by-Unwritten none none payload fs a = λ aliases command timestamp bytes updates h. refl
parse_by-Unwritten (some packet) none payload fs a =
    checked-Unwritten (validate_payload packet payload) fs _
      (written-Unwritten (parsed_fields payload packet fs) fs)
parse_by-Unwritten none (some parser) payload fs a =
    parser-Unwritten (parser payload fs) fs (a payload fs)
parse_by-Unwritten (some packet) (some parser) payload fs a =
    checked-Unwritten (validate_payload packet payload) fs _
      (parser-Unwritten (parser payload fs) fs (a payload fs))

-- The parser of a command is one of the table.
parser_of-Atomic :
    (command : ℕ) (parsers : List (ℕ × PayloadParser))
    → All (λ (p : ℕ × PayloadParser). IsAtomic p.1) parsers
    → AtomicOption (parser_of command parsers)
unfolding parser_of
parser_of-Atomic command [] a = tt
parser_of-Atomic command ((key, parser) ∷ parsers) (a, rest) = elim (Bool-cases (command == key)) [
  | inl t ↦ rw t a
  | inr f ↦ rw f (parser_of-Atomic command parsers rest)
]

-- Where every payload parser of a runtime that raises or returns None has written nothing, a notification that
-- `parse_notification` returns false for leaves the product's data, its values and its metadata,
-- as they were.
pub rejected_unchanged :
    (runtime : ProductRuntime) (frame : Bytes) (timestamp : ℕ) (d : ProductData)
    → All (λ (p : ℕ × PayloadParser). IsAtomic p.1) runtime.payload_parsers
    → (parse_notification runtime frame timestamp d).0 ≡ false
    → (parse_notification runtime frame timestamp d).1 ≡ d
unfolding parse_notification parse_payload
rejected_unchanged runtime frame timestamp d atomic = same (check_frame frame)
  where
    same :
        (c : Checked)
        → (parse_checked runtime c timestamp d).0 ≡ false
        → (parse_checked runtime c timestamp d).1 ≡ d
    same (refused r) = λ h. refl
    same (accepted command payload) =
        parse_by-Unwritten (packet_of command runtime.profile.packets)
          (parser_of command runtime.payload_parsers) payload d.fields
          (parser_of-Atomic command runtime.payload_parsers atomic) runtime.profile.aliases command
          timestamp payload d.field_updates
