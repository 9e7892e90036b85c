-- ===== src/Frame.antt =====
-- The command frames of custom_components/marstek_ble/marstek_device.py (`MarstekProtocol`) and
-- product_runtime.py (`ProductProtocol`), which build and check them alike:
-- [0x73][len][0x23][cmd][payload...][xor].
mod Xor
pub mod Build
pub mod Corruption
use ha_marstek_ble.Prelude.{
  ℕ, ◌+◌, ◌<◌, Bool, true, false, ◌&&◌, ◌||◌, not, Option, none, some, List, [], ◌∷◌, ◌++◌, bit_xor,
  leb, ◌==◌, if◌then◌else◌, length, All,
}
use ha_marstek_ble.Struct.{Bytes}
use ha_marstek_ble.Result.{Error, value_error, Result, ok, err}

-- Every element is a byte, which Python's `bytes` guarantees.
abbrev pub IsBytes : Bytes → Type 0
IsBytes = All (λ b. b < 256)

-- `checksum = 0; for byte in frame: checksum ^= byte`
unfoldable pub xor_from : ℕ → Bytes → ℕ
xor_from checksum [] = checksum
xor_from checksum (byte ∷ bytes) = xor_from (bit_xor checksum byte) bytes

abbrev pub checksum : Bytes → ℕ
checksum = xor_from 0

-- `build_command(cmd, payload)`. A bytearray takes no value above 255: neither the command nor the
-- length byte.
unfoldable pub build_command : ℕ → Bytes → Result Bytes
build_command cmd payload =
    let size = length (0x73 ∷ 0x00 ∷ 0x23 ∷ cmd ∷ payload) + 1 in
    let frame = 0x73 ∷ size ∷ 0x23 ∷ cmd ∷ payload in
    if leb cmd 255 && leb size 255 then ok (frame ++ checksum frame ∷ []) else err value_error

-- `data[:-1]` and `data[-1]` of a list with a first element.
abbrev pub all_but_last : ℕ → Bytes → Bytes
all_but_last b [] = []
all_but_last b (c ∷ bytes) = b ∷ all_but_last c bytes

abbrev pub last : ℕ → Bytes → ℕ
last b [] = b
last b (c ∷ bytes) = last c bytes

-- Why a notification is turned down, in the order of the tests of `parse_notification`.
pub data Refusal : Type 0 where
  too_short invalid_header invalid_length invalid_checksum : Refusal

pub data Checked : Type 0 where
  accepted : ℕ → Bytes → Checked
  refused : Refusal → Checked

-- The tests of `parse_notification` on a notification of five bytes or more, and the command and
-- the payload `data[4:-1]` that pass on.
abbrev check_parts : ℕ → ℕ → ℕ → ℕ → ℕ → Bytes → Checked
check_parts start declared kind cmd first rest =
    let frame = start ∷ declared ∷ kind ∷ cmd ∷ all_but_last first rest in
    if not (start == 0x73) || not (kind == 0x23)
    then refused invalid_header
    else if not (declared == length (start ∷ declared ∷ kind ∷ cmd ∷ first ∷ rest))
    then refused invalid_length
    else if not (last first rest == checksum frame)
    then refused invalid_checksum
    else accepted cmd (all_but_last first rest)

unfoldable pub check_frame : Bytes → Checked
check_frame (start ∷ declared ∷ kind ∷ cmd ∷ first ∷ rest) =
    check_parts start declared kind cmd first rest
check_frame _ = refused too_short
