-- ===== src/Frame/Corruption.antt =====
-- The checksum of a frame against a change of one byte.
use ha_marstek_ble.Prelude.{ℕ, ◌≡◌, ◌≢◌, refl, [], ◌∷◌, ◌++◌, bit_xor, arith}
use ha_marstek_ble.Struct.{Bytes}
use ha_marstek_ble.Frame.{
  xor_from, all_but_last, last, Refusal, Checked, accepted, refused, check_frame,
}
use ha_marstek_ble.Frame.Xor.{bit_xor_right, bit_xor_left}

-- The last byte is the exclusive or of `acc` and the others.
abbrev Sealed : ℕ → Bytes → Type 0
Sealed acc [] = ⊥
Sealed acc (b ∷ []) = b ≡ acc
Sealed acc (b ∷ c ∷ bytes) = Sealed (bit_xor acc b) (c ∷ bytes)

Sealed-by_last :
    (acc b : ℕ) (bytes : Bytes)
    → last b bytes ≡ xor_from acc (all_but_last b bytes)
    → Sealed acc (b ∷ bytes)
unfolding xor_from
Sealed-by_last acc b [] e = e
Sealed-by_last acc b (c ∷ bytes) e = Sealed-by_last (bit_xor acc b) c bytes e

Sealed-start : (c d : ℕ) (bytes : Bytes) → Sealed c bytes → Sealed d bytes → c ≡ d
Sealed-start c d [] h k = absurd h
Sealed-start c d (b ∷ []) h k = omega arith
Sealed-start c d (b ∷ e ∷ bytes) h k =
    bit_xor_left c d b (Sealed-start (bit_xor c b) (bit_xor d b) (e ∷ bytes) h k)

-- Two sealed lists that differ in one place are equal there.
Sealed-place :
    (acc : ℕ) (before : Bytes) (b b' : ℕ) (after : Bytes)
    → Sealed acc (before ++ b ∷ after)
    → Sealed acc (before ++ b' ∷ after)
    → b ≡ b'
Sealed-place acc [] b b' [] h k = omega arith
Sealed-place acc [] b b' (c ∷ after) h k =
    bit_xor_right acc b b' (Sealed-start (bit_xor acc b) (bit_xor acc b') (c ∷ after) h k)
Sealed-place acc (x ∷ []) b b' after h k = Sealed-place (bit_xor acc x) [] b b' after h k
Sealed-place acc (x ∷ y ∷ before) b b' after h k =
    Sealed-place (bit_xor acc x) (y ∷ before) b b' after h k

accepted-Sealed :
    (frame : Bytes) (cmd : ℕ) (payload : Bytes)
    → check_frame frame ≡ accepted cmd payload
    → Sealed 0 frame
unfolding check_frame xor_from
accepted-Sealed [] cmd payload h = cc
accepted-Sealed (a ∷ []) cmd payload h = cc
accepted-Sealed (a ∷ b ∷ []) cmd payload h = cc
accepted-Sealed (a ∷ b ∷ c ∷ []) cmd payload h = cc
accepted-Sealed (a ∷ b ∷ c ∷ d ∷ []) cmd payload h = cc
accepted-Sealed (a ∷ b ∷ c ∷ d ∷ q ∷ qs) cmd payload h =
    Sealed-by_last (bit_xor (bit_xor (bit_xor (bit_xor 0 a) b) c) d) q qs (ground arith)

Checked-cases :
    (c : Checked) {P : Type 0}
    → ((cmd : ℕ) (payload : Bytes) → c ≡ accepted cmd payload → P)
    → ((r : Refusal) → c ≡ refused r → P)
    → P
Checked-cases (accepted cmd payload) f g = f cmd payload refl
Checked-cases (refused r) f g = g r refl

-- If a notification passes the checks, then the notification with any one byte changed to another
-- value, wherever it stands, is refused.
pub check_frame_detects :
    (before : Bytes) (b b' : ℕ) (after : Bytes) {cmd : ℕ} {payload : Bytes}
    → check_frame (before ++ b ∷ after) ≡ accepted cmd payload
    → b' ≢ b
    → (r : Refusal) × (check_frame (before ++ b' ∷ after) ≡ refused r)
check_frame_detects before b b' after {cmd} {payload} h ne =
    Checked-cases (check_frame (before ++ b' ∷ after))
      (λ cmd' payload' k. absurd (
        ne (
          Sealed-place 0 before b' b after (accepted-Sealed _ cmd' payload' k)
            (accepted-Sealed _ cmd payload h))))
      (λ r k. (r, k))
