-- ===== src/Modbus/Codec/RoundTrip.antt =====
-- What is written to a point of a SunSpec model is what is read back from it.
use helios_home.Prelude.{
  ℕ, ◌-◌, ◌*◌, ◌/◌, ◌%◌, ◌<◌, ◌≡◌, Option, some, List, [], ◌∷◌, arith, ℤ, pos, negsuc, ok,
  bit_or-high_low, bit_or,
}
use helios_home.Prelude.Float.{Float}
use helios_home.Modbus.Codec.{
  PointType, int16, uint16, enum16, bitfield16, bitfield32, uint32, acc32, int32, SunSpecPoint,
  Value, int, encode_point_registers, decode_point_value, normalize, whole, integers, encode_as,
  decode_as, encode_signed_16, decode_signed_16, encode_signed_32, decode_signed_32,
  encode_unsigned_32, decode_unsigned_32, two_registers, decode_unsigned_16,
}

-- The whole numbers that a writable point can hold: its range, without the "not implemented" mark.
abbrev pub Holds : PointType → ℤ → Type 0
Holds int16 (pos n) = n < 32768
Holds int16 (negsuc n) = n < 32767
Holds uint16 (pos n) = n < 65535
Holds enum16 (pos n) = n < 65535
Holds bitfield16 (pos n) = n < 65535
Holds uint32 (pos n) = n < 4294967295
Holds acc32 (pos n) = n < 4294967295
Holds bitfield32 (pos n) = n < 4294967295
Holds int32 (pos n) = n < 2147483648
Holds int32 (negsuc n) = n < 2147483647
Holds _ _ = ⊥

-- A list of 16-bit values.
abbrev pub Registers : List ℕ → Type 0
Registers [] = Unit
Registers (r ∷ rs) = (r < 65536) × Registers rs

join_halves : (w : ℕ) → bit_or (w / 65536 * 65536) (w % 65536) ≡ w
join_halves w = omega (arith, bit_or-high_low (w / 65536) (w % 65536) (omega arith))

signed_16 :
    (n : ℤ)
    → Holds int16 n
    → (w : ℕ) × (encode_signed_16 n ≡ ok w) × (w < 65536) × (decode_signed_16 w ≡ ok (some n))
unfolding encode_signed_16 decode_signed_16
signed_16 (pos n) h = (n, ground arith, ground arith, ground arith)
signed_16 (negsuc n) h = (65535 - n, ground arith, ground arith, ground arith)

unsigned_16 : (n : ℕ) → n < 65535 → decode_unsigned_16 n ≡ some (pos n)
unfolding decode_unsigned_16
unsigned_16 n h = ground arith

unsigned_32 :
    (n : ℕ)
    → n < 4294967295
    → (encode_unsigned_32 (pos n) ≡ ok (two_registers n))
      × Registers (two_registers n)
      × (decode_unsigned_32 (two_registers n) ≡ ok (some (pos n)))
unfolding encode_unsigned_32 decode_unsigned_32
unsigned_32 n h = (ground arith, omega arith, rw join_halves (ground arith))

signed_32 :
    (n : ℤ)
    → Holds int32 n
    → (w : ℕ) × (encode_signed_32 n ≡ ok (two_registers w))
      × Registers (two_registers w)
      × (decode_signed_32 (two_registers w) ≡ ok (some n))
unfolding encode_signed_32 decode_signed_32
signed_32 (pos n) h = (n, ground arith, omega arith, rw join_halves (ground arith))
signed_32 (negsuc n) h = (4294967295 - n, ground arith, omega arith, rw join_halves (ground arith))

module _ {W : Type 0} ⦃fl : Float W⦄ where
  abbrev Carries : PointType → ℤ → Option (Value W) → Type 0
  Carries t n value =
      (rs : List ℕ) × (encode_as t value ≡ ok (integers rs))
      × Registers rs
      × (decode_as {W = W} t rs ≡ ok (some (int n)))

  carries :
      (t : PointType) (n : ℤ) (value : Option (Value W))
      → whole value ≡ ok n
      → Holds t n
      → Carries t n value
  unfolding encode_as decode_as
  carries int16 n value e h =
      let (w, enc, r, dec) = signed_16 n h in (w ∷ [], rw e (rw enc), omega arith, rw dec)
  carries uint16 (pos n) value e h = (n ∷ [], rw e, omega arith, rw (unsigned_16 n h))
  carries enum16 (pos n) value e h = (n ∷ [], rw e, omega arith, rw (unsigned_16 n h))
  carries bitfield16 (pos n) value e h = (n ∷ [], rw e, omega arith, rw (unsigned_16 n h))
  carries uint32 (pos n) value e h =
      let (enc, r, dec) = unsigned_32 n h in (two_registers n, rw e (rw enc), omega arith, rw dec)
  carries acc32 (pos n) value e h =
      let (enc, r, dec) = unsigned_32 n h in (two_registers n, rw e (rw enc), omega arith, rw dec)
  carries bitfield32 (pos n) value e h =
      let (enc, r, dec) = unsigned_32 n h in (two_registers n, rw e (rw enc), omega arith, rw dec)
  carries int32 n value e h =
      let (w, enc, r, dec) = signed_32 n h in (two_registers w, rw e (rw enc), omega arith, rw dec)
  carries _ _ value e h = absurd h

  -- Whatever number, scaled or not, is given for a point: if the whole number that it is rounded to
  -- lies in the point's range and is not its "not implemented" mark, then encoding succeeds, gives
  -- 16-bit registers, and decoding those gives that whole number.
  pub decode-encode_point :
      (point : SunSpecPoint) (value : Option (Value W)) (factor : Option ℤ) (n : ℤ)
      → whole (normalize point.scale_factor value factor) ≡ ok n
      → Holds point.point_type n
      → (rs : List ℕ) × (encode_point_registers point value factor ≡ ok (integers rs))
        × Registers rs
        × (decode_point_value {W = W} point rs ≡ ok (some (int n)))
  unfolding encode_point_registers decode_point_value
  decode-encode_point point value factor n e h = carries point.point_type n _ e h
