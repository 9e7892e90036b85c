-- ===== src/ProductRuntime/Accepts.antt =====
-- The notifications that the protocol of custom_components/marstek_ble/product_runtime.py accepts.
use ha_marstek_ble.Prelude.{
  ℕ, ◌≡◌, refl, sym, ◌↔◌, String, true, inl, inr, Option, none, some, List, [], ◌∷◌, ◌==◌, ==_iff,
  All, Bool-cases, subst, map, if◌then◌else◌,
}
use ha_marstek_ble.Struct.{Bytes}
use ha_marstek_ble.Result.{Result, ok, err, ◌>>=◌}
use ha_marstek_ble.Frame.{Checked, accepted, refused, check_frame}
use ha_marstek_ble.Schema.{PacketSchema, validate_payload}
use ha_marstek_ble.Schema.Tree.{Fields, DataPath, ParsedField, parsed_fields, apply_all, parse_into}
use ha_marstek_ble.Schema.Total.{IsReady, parse_into_total}
use ha_marstek_ble.Marstek.{Updates}
use ha_marstek_ble.ProductRuntime.{
  PayloadParser, ProductData, ProductRuntime, Parsed, parser_of, packet_of, parse_by, parse_payload,
  checked, written, noted, parse_checked, parse_notification,
}

-- Fields are reported.
abbrev pub Reports : Parsed → Type 0
Reports r = (paths : List DataPath) × (r.0 ≡ ok (some paths))

-- The parser of a packet, if it has one, reports fields for every payload of an allowed length.
abbrev pub Answers : PacketSchema → Option PayloadParser → Type 0
Answers packet none = Unit
Answers packet (some parser) =
    (payload : Bytes) (fs : Fields)
    → validate_payload packet payload ≡ ok tt
    → Reports (parser payload fs)

-- The payload is one of a packet of the profile, of an allowed length.
abbrev pub IsExpectedPayload : ProductRuntime → ℕ → Bytes → Type 0
IsExpectedPayload runtime command payload =
    (packet : PacketSchema) × (packet_of command runtime.profile.packets ≡ some packet)
    × (validate_payload packet payload ≡ ok tt)

abbrev pub IsExpectedCheck : ProductRuntime → Checked → Type 0
IsExpectedCheck runtime (refused reason) = ⊥
IsExpectedCheck runtime (accepted command payload) = IsExpectedPayload runtime command payload

-- The bytes are a frame, and its payload one of a packet of the profile.
abbrev pub IsExpected : ProductRuntime → Bytes → Type 0
IsExpected runtime frame = IsExpectedCheck runtime (check_frame frame)

-- What the payload parsers of a runtime owe its packets.
pub record IsComplete (runtime : ProductRuntime) : Type 0 where
  pub answers :
      All
        (λ (p : PacketSchema). Answers p (parser_of p.command runtime.payload_parsers))
        runtime.profile.packets
  pub known :
      All
        (λ (e : ℕ × PayloadParser).
          (p : PacketSchema) × (packet_of e.0 runtime.profile.packets ≡ some p))
        runtime.payload_parsers

-- Where the fields decode, they are written and reported.
written-parsed :
    (m : Result (List ParsedField)) (fs fs' : Fields)
    → (m >>= λ (us : List ParsedField). ok (apply_all us fs)) ≡ ok fs'
    → Reports (written m fs) × ((written m fs).1 ≡ fs')
written-parsed (ok us) fs fs' e = ((map (λ (u : ParsedField). u.path) us, refl), cc)
written-parsed (err x) fs fs' e = absurd cc

written_total :
    (payload : Bytes) (packet : PacketSchema) (fs : Fields)
    → IsReady fs
    → validate_payload packet payload ≡ ok tt
    → Reports (written (parsed_fields payload packet fs) fs)
unfolding parse_into
written_total payload packet fs ready valid =
    let (fs', e) = parse_into_total payload packet fs ready valid in
    (written-parsed (parsed_fields payload packet fs) fs fs' e).0

packet_of-Answers :
    (command : ℕ) (parsers : List (ℕ × PayloadParser)) (packets : List PacketSchema)
    (p : PacketSchema)
    → All (λ (q : PacketSchema). Answers q (parser_of q.command parsers)) packets
    → packet_of command packets ≡ some p
    → Answers p (parser_of command parsers)
unfolding packet_of
packet_of-Answers command parsers [] p a e = absurd cc
packet_of-Answers command parsers (q ∷ packets) p (a, rest) e =
    elim (Bool-cases (command == q.command)) [
      | inl t ↦
          subst (λ (x : PacketSchema). Answers x (parser_of command parsers)) (found t e)
            (subst (λ (n : ℕ). Answers q (parser_of n parsers))
              (sym ((==_iff command q.command).0 t)) a)
      | inr f ↦ packet_of-Answers command parsers packets p rest (rw f at e)
    ]
  where
    found :
        (command == q.command) ≡ true
        → (if command == q.command then some q else packet_of command packets) ≡ some p
        → q ≡ p
    found t h = cc

HasPacket : Option PacketSchema → Option PayloadParser → Type 0
HasPacket packet none = Unit
HasPacket packet (some parser) = (p : PacketSchema) × (packet ≡ some p)

parser_of-HasPacket :
    (command : ℕ) (packets : List PacketSchema) (parsers : List (ℕ × PayloadParser))
    → All (λ (e : ℕ × PayloadParser). (p : PacketSchema) × (packet_of e.0 packets ≡ some p)) parsers
    → HasPacket (packet_of command packets) (parser_of command parsers)
unfolding parser_of HasPacket
parser_of-HasPacket command packets [] a = tt
parser_of-HasPacket command packets ((key, parser) ∷ parsers) (a, rest) =
    elim (Bool-cases (command == key)) [
      | inl t ↦ rw t (
          subst (λ (n : ℕ). (p : PacketSchema) × (packet_of n packets ≡ some p))
            (sym ((==_iff command key).0 t)) a)
      | inr f ↦ rw f (parser_of-HasPacket command packets parsers rest)
    ]

noted-Reports :
    (aliases : DataPath → List String) (command : ℕ) (payload : Bytes) (timestamp : ℕ)
    (updates : Updates) (r : Parsed)
    → ((noted aliases command payload timestamp updates r).0 ≡ true) ↔ Reports r
noted-Reports aliases command payload timestamp updates (ok none, fs) =
    (λ h. absurd cc, λ (paths, e). absurd cc)
noted-Reports aliases command payload timestamp updates (ok (some paths), fs) =
    (λ h. (paths, refl), λ h. refl)
noted-Reports aliases command payload timestamp updates (err e, fs) =
    (λ h. absurd cc, λ (paths, e). absurd cc)

checked-Reports :
    (check : Result (Unit {0})) (fs : Fields) (rest : Parsed)
    → Reports (checked check fs rest)
    → check ≡ ok tt
checked-Reports (ok tt) fs rest h = refl
checked-Reports (err e) fs rest (paths, h) = absurd cc

checked_total :
    (check : Result (Unit {0})) (fs : Fields) (rest : Parsed)
    → check ≡ ok tt
    → Reports rest
    → Reports (checked check fs rest)
checked_total (ok tt) fs rest e h = h
checked_total (err x) fs rest e h = absurd cc

-- The cases of `parse_payload` in which fields are reported.
parse_by-Reports :
    (packet : Option PacketSchema) (parser : Option PayloadParser) (payload : Bytes) (fs : Fields)
    → IsReady fs
    → ((p : PacketSchema) → packet ≡ some p → Answers p parser)
    → HasPacket packet parser
    → Reports (parse_by packet parser payload fs)
      ↔ ((p : PacketSchema) × (packet ≡ some p) × (validate_payload p payload ≡ ok tt))
unfolding HasPacket
parse_by-Reports none none payload fs ready a k = (λ (paths, h). absurd cc, λ (p, e, v). absurd cc)
parse_by-Reports none (some parser) payload fs ready a (p, e) = absurd cc
parse_by-Reports (some packet) none payload fs ready a k = (
  λ h. (packet, refl, checked-Reports (validate_payload packet payload) fs _ h),
  λ (p, e, v).
      let valid : validate_payload packet payload ≡ ok tt = cc in
      checked_total (validate_payload packet payload) fs _ valid
        (written_total payload packet fs ready valid),
)
parse_by-Reports (some packet) (some parser) payload fs ready a k = (
  λ h. (packet, refl, checked-Reports (validate_payload packet payload) fs _ h),
  λ (p, e, v).
      let valid : validate_payload packet payload ≡ ok tt = cc in
      checked_total (validate_payload packet payload) fs _ valid (a packet refl payload fs valid),
)

-- For a runtime whose parsers suit its packets and data ready for its tables, the notifications
-- that `parse_notification` returns true for are the frames that hold a payload of an allowed
-- length of one of the profile's packets.
pub accepted_iff_IsExpected :
    (runtime : ProductRuntime) (frame : Bytes) (timestamp : ℕ) (d : ProductData)
    → IsComplete runtime
    → IsReady d.fields
    → ((parse_notification runtime frame timestamp d).0 ≡ true) ↔ IsExpected runtime frame
unfolding parse_notification parse_payload
accepted_iff_IsExpected runtime frame timestamp d complete h = from (check_frame frame)
  where
    from :
        (c : Checked) → ((parse_checked runtime c timestamp d).0 ≡ true) ↔ IsExpectedCheck runtime c
    from (refused r) = (λ e. absurd cc, λ e. absurd e)
    from (accepted command payload) =
        let packet = packet_of command runtime.profile.packets in
        let parser = parser_of command runtime.payload_parsers in
        let said =
          noted-Reports runtime.profile.aliases command payload timestamp d.field_updates
            (parse_by packet parser payload d.fields) in
        let expected =
          parse_by-Reports packet parser payload d.fields h
            (λ p e.
              packet_of-Answers command runtime.payload_parsers runtime.profile.packets p
                complete.answers e)
            (parser_of-HasPacket command runtime.profile.packets runtime.payload_parsers
              complete.known) in
        (λ e. expected.0 (said.0 e), λ e. said.1 (expected.1 e))
