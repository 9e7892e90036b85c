-- ===== src/Frame/Build.antt =====
-- `build_command` against the checks of `parse_notification`.
use ha_marstek_ble.Prelude.{
  ℕ, ◌+◌, ◌≤◌, ◌<◌, ◌≡◌, refl, ◌⊎◌, [], ◌∷◌, ◌++◌, arith, length, length-append, ap,
}
use ha_marstek_ble.Struct.{Bytes}
use ha_marstek_ble.Result.{value_error, ok, err}
use ha_marstek_ble.Frame.{
  IsBytes, checksum, build_command, all_but_last, last, accepted, check_frame,
}

-- The only bytes after the fourth that can end in `c`, for a payload.
abbrev first_of_tail : Bytes → ℕ → ℕ
first_of_tail [] c = c
first_of_tail (q ∷ qs) c = q

abbrev rest_of_tail : Bytes → ℕ → Bytes
rest_of_tail [] c = []
rest_of_tail (q ∷ qs) c = qs ++ c ∷ []

all_but_last-snoc : (q : ℕ) (qs : Bytes) (c : ℕ) → all_but_last q (qs ++ c ∷ []) ≡ q ∷ qs
all_but_last-snoc q [] c = refl
all_but_last-snoc q (r ∷ qs) c = ap (λ (t : Bytes). q ∷ t) (all_but_last-snoc r qs c)

last-snoc : (q : ℕ) (qs : Bytes) (c : ℕ) → last q (qs ++ c ∷ []) ≡ c
last-snoc q [] c = refl
last-snoc q (r ∷ qs) c = last-snoc r qs c

snoc-last : (q : ℕ) (qs : Bytes) → all_but_last q qs ++ last q qs ∷ [] ≡ q ∷ qs
snoc-last q [] = refl
snoc-last q (r ∷ qs) = ap (λ (t : Bytes). q ∷ t) (snoc-last r qs)

length-all_but_last : (q : ℕ) (qs : Bytes) → length (all_but_last q qs) ≡ length qs
length-all_but_last q [] = refl
length-all_but_last q (r ∷ qs) = omega (arith, length-all_but_last r qs)

check-tail :
    (size cmd : ℕ) (payload : Bytes)
    → size ≡ length payload + 5
    → check_frame
        (0x73 ∷ size ∷ 0x23 ∷ cmd ∷ (payload ++ checksum (0x73 ∷ size ∷ 0x23 ∷ cmd ∷ payload) ∷ []))
      ≡ accepted cmd payload
unfolding check_frame
check-tail size cmd [] e = ground arith
check-tail size cmd (q ∷ qs) e = ground (
  arith,
  all_but_last-snoc q qs (checksum (0x73 ∷ size ∷ 0x23 ∷ cmd ∷ q ∷ qs)),
  last-snoc q qs (checksum (0x73 ∷ size ∷ 0x23 ∷ cmd ∷ q ∷ qs)),
  length-append qs (checksum (0x73 ∷ size ∷ 0x23 ∷ cmd ∷ q ∷ qs) ∷ []),
)

-- Whatever `build_command` returns passes every check, with the command and the payload that it
-- was built from.
pub check_frame-build_command :
    (cmd : ℕ) (payload frame : Bytes)
    → build_command cmd payload ≡ ok frame
    → check_frame frame ≡ accepted cmd payload
unfolding build_command
check_frame-build_command cmd payload frame h =
    ground (arith, check-tail (length payload + 5) cmd payload refl)

-- Every notification of bytes that passes the checks is what `build_command` returns for the
-- command and the payload that are taken from it.
pub build_command-check_frame :
    (frame : Bytes) (cmd : ℕ) (payload : Bytes)
    → IsBytes frame
    → check_frame frame ≡ accepted cmd payload
    → build_command cmd payload ≡ ok frame
unfolding check_frame build_command
build_command-check_frame [] cmd payload hb h = cc
build_command-check_frame (a ∷ []) cmd payload hb h = cc
build_command-check_frame (a ∷ b ∷ []) cmd payload hb h = cc
build_command-check_frame (a ∷ b ∷ c ∷ []) cmd payload hb h = cc
build_command-check_frame (a ∷ b ∷ c ∷ d ∷ []) cmd payload hb h = cc
build_command-check_frame (a ∷ b ∷ c ∷ d ∷ q ∷ qs) cmd payload hb h =
    ground (arith, snoc-last q qs, length-all_but_last q qs)

-- The frame as `build_command` lays it out.
abbrev framed : ℕ → Bytes → Bytes
framed cmd payload =
    let frame = 0x73 ∷ (length payload + 5) ∷ 0x23 ∷ cmd ∷ payload in frame ++ checksum frame ∷ []

-- For a command of at most 255 and a payload of at most 250 bytes, `build_command` returns a frame
-- five bytes longer than the payload, which passes every check with that command and payload.
pub build_command_total :
    (cmd : ℕ) (payload : Bytes)
    → cmd ≤ 255
    → length payload ≤ 250
    → (frame : Bytes) × (build_command cmd payload ≡ ok frame)
      × (length frame ≡ length payload + 5)
      × (check_frame frame ≡ accepted cmd payload)
build_command_total cmd payload hc hp =
    let built : build_command cmd payload ≡ ok (framed cmd payload) =
      unfold build_command in ground arith in
    (
      framed cmd payload,
      built,
      ground (
        arith,
        length-append payload (checksum (0x73 ∷ (length payload + 5) ∷ 0x23 ∷ cmd ∷ payload) ∷ []),
      ),
      check_frame-build_command cmd payload (framed cmd payload) built,
    )

-- A command above 255 or a payload above 250 bytes makes `build_command` raise ValueError, since
-- neither the command nor the length fits its byte.
pub build_command_error :
    (cmd : ℕ) (payload : Bytes)
    → (255 < cmd) ⊎ (250 < length payload)
    → build_command cmd payload ≡ err value_error
unfolding build_command
build_command_error cmd payload h = ground arith
