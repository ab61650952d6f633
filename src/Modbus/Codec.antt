-- ===== src/Modbus/Codec.antt =====
-- services/modbus.py: registers to values and back.
pub mod RoundTrip
use helios_home.Prelude.{
  ℕ, ◌+◌, ◌-◌, ◌*◌, ◌/◌, ◌%◌, String, Option, none, some, List, [], ◌∷◌, bit_or, ℤ, pos, negsuc,
  Result, ok, err, ltb, ◌==◌, if◌then◌else◌, ◌>>=◌,
}
use helios_home.Prelude.Float.{Float}

-- The exceptions that this module raises, or that escape it, without their messages.
pub data Failure : Type 0 where
  modbus_source_error struct_error index_error type_error os_error : Failure

-- The values of `point_type`; any other text is `unsupported`.
pub data PointType : Type 0 where
  int16 uint16 enum16 bitfield16 bitfield32 uint32 acc32 int32 uint64 float32 sunssf : PointType
  unsupported : String → PointType

pub record SunSpecPoint : Type 0 where
  pub name : String
  pub point_type : PointType
  pub size : ℕ
  pub scale_factor : Option String

-- A number as the Modbus functions pass it on.
pub data Value (W : Type 0) : Type 0 where
  int : ℤ → Value W
  float : W → Value W

-- `struct.pack("!h", v)` is `pack_signed (2 ^ 15)`, `"!i"` is `pack_signed (2 ^ 31)`: two's complement.
unfoldable pub pack_signed : ℕ → ℤ → Result Failure ℕ
pack_signed half (pos n) = if ltb n half then ok n else err struct_error
pack_signed half (negsuc n) = if ltb n half then ok (2 * half - 1 - n) else err struct_error

unfoldable pub unpack_signed : ℕ → ℕ → ℤ
unpack_signed half w = if ltb w half then pos w else negsuc (2 * half - 1 - w)

-- `struct.pack("!I", v)`
unfoldable pub pack_unsigned : ℕ → ℤ → Result Failure ℕ
pack_unsigned size (pos n) = if ltb n size then ok n else err struct_error
pack_unsigned size (negsuc n) = err struct_error

-- A 32-bit word as the two registers of `struct.unpack("!HH", ...)`.
abbrev pub two_registers : ℕ → List ℕ
two_registers w = (w / 65536) ∷ (w % 65536) ∷ []

unfoldable pub decode_signed_16 : ℕ → Result Failure (Option ℤ)
unfolding unpack_signed
decode_signed_16 register =
    if register == 0x8000
    then ok none
    else if ltb register 65536
    then ok (some (unpack_signed 32768 register))
    else err struct_error

unfoldable pub decode_unsigned_16 : ℕ → Option ℤ
decode_unsigned_16 register = if register == 0xFFFF then none else some (pos register)

unfoldable pub decode_signed_32 : List ℕ → Result Failure (Option ℤ)
unfolding unpack_signed
decode_signed_32 (high ∷ low ∷ rest) =
    let value = bit_or (high * 65536) low in
    if value == 0x80000000
    then ok none
    else if ltb value 4294967296
    then ok (some (unpack_signed 2147483648 value))
    else err struct_error
decode_signed_32 _ = err index_error

unfoldable pub decode_unsigned_32 : List ℕ → Result Failure (Option ℤ)
decode_unsigned_32 (high ∷ low ∷ rest) =
    let value = bit_or (high * 65536) low in
    if value == 0xFFFFFFFF then ok none else ok (some (pos value))
decode_unsigned_32 _ = err index_error

-- `for register in registers: value = (value << 16) | register`
unfoldable pub join_registers : ℕ → List ℕ → ℕ
join_registers value [] = value
join_registers value (register ∷ rest) = join_registers (bit_or (value * 65536) register) rest

unfoldable pub decode_unsigned_64 : List ℕ → Option ℤ
unfolding join_registers
decode_unsigned_64 registers =
    let value = join_registers 0 registers in
    if value == 0xFFFFFFFFFFFFFFFF then none else some (pos value)

unfoldable pub decode_sunssf : ℕ → Result Failure (Option ℤ)
unfolding decode_signed_16
decode_sunssf register = decode_signed_16 register

unfoldable pub encode_signed_16 : ℤ → Result Failure ℕ
unfolding pack_signed
encode_signed_16 value = pack_signed 32768 value

unfoldable pub encode_signed_32 : ℤ → Result Failure (List ℕ)
unfolding pack_signed
encode_signed_32 value = do packed ← pack_signed 2147483648 value; ok (two_registers packed)

unfoldable pub encode_unsigned_32 : ℤ → Result Failure (List ℕ)
unfolding pack_unsigned
encode_unsigned_32 value = do packed ← pack_unsigned 4294967296 value; ok (two_registers packed)

-- `registers[0]`
abbrev pub first : List ℕ → Result Failure ℕ
first [] = err index_error
first (register ∷ rest) = ok register

abbrev pub integers : List ℕ → List ℤ
integers [] = []
integers (register ∷ rest) = pos register ∷ integers rest

module _ {W : Type 0} ⦃fl : Float W⦄ where
  unfoldable pub decode_float_32 : List ℕ → Result Failure (Option W)
  decode_float_32 (high ∷ low ∷ rest) =
      let value = fl.unpack (high * 65536 + low) in
      if ltb high 65536
      then (if ltb low 65536
          then (if fl.is_finite value then ok (some value) else ok none)
          else err struct_error)
      else err struct_error
  decode_float_32 _ = err index_error

  -- `float(value)`
  abbrev pub to_float : Value W → W
  to_float (int n) = fl.of_int n
  to_float (float x) = x

  -- `int(value)`
  abbrev pub to_int : Value W → ℤ
  to_int (int n) = n
  to_int (float x) = fl.trunc x

  abbrev scaled_by : W → Option ℤ → W
  scaled_by x none = x
  scaled_by x (some k) = fl.times x (fl.pow10 k)

  unfoldable pub apply_scale_factor : Option (Value W) → Option ℤ → Option W
  apply_scale_factor none scale_factor = none
  apply_scale_factor (some value) scale_factor =
      let scaled = scaled_by (to_float value) scale_factor in
      if fl.is_finite scaled then some scaled else none

  unfoldable pub remove_scale_factor : W → Option ℤ → W
  remove_scale_factor value none = value
  remove_scale_factor value (some k) = fl.over value (fl.pow10 k)

  abbrev as_int : Option ℤ → Option (Value W)
  as_int none = none
  as_int (some n) = some (int n)

  abbrev as_float : Option W → Option (Value W)
  as_float none = none
  as_float (some x) = some (float x)

  -- The decoded value of a point, `none` where the register holds the "not implemented" mark.
  decode_as : PointType → List ℕ → Result Failure (Option (Value W))
  unfolding decode_signed_16 decode_unsigned_16 decode_unsigned_32 decode_signed_32
      decode_unsigned_64 decode_float_32 decode_sunssf
  decode_as int16 rs = do r ← first rs; v ← decode_signed_16 r; ok (as_int v)
  decode_as uint16 rs = do r ← first rs; ok (as_int (decode_unsigned_16 r))
  decode_as enum16 rs = do r ← first rs; ok (as_int (decode_unsigned_16 r))
  decode_as bitfield16 rs = do r ← first rs; ok (as_int (decode_unsigned_16 r))
  decode_as bitfield32 rs = do v ← decode_unsigned_32 rs; ok (as_int v)
  decode_as uint32 rs = do v ← decode_unsigned_32 rs; ok (as_int v)
  decode_as acc32 rs = do v ← decode_unsigned_32 rs; ok (as_int v)
  decode_as int32 rs = do v ← decode_signed_32 rs; ok (as_int v)
  decode_as uint64 rs = ok (as_int (decode_unsigned_64 rs))
  decode_as float32 rs = do v ← decode_float_32 rs; ok (as_float v)
  decode_as sunssf rs = do r ← first rs; v ← decode_sunssf r; ok (as_int v)
  decode_as (unsupported t) rs = ok none

  unfoldable pub decode_point_value : SunSpecPoint → List ℕ → Result Failure (Option (Value W))
  unfolding decode_as
  decode_point_value point registers = decode_as point.point_type registers

  -- Only a point with a scale factor is rounded.
  unfoldable pub normalize : Option String → Option (Value W) → Option ℤ → Option (Value W)
  unfolding remove_scale_factor
  normalize (some name) (some value) factor =
      some (int (fl.nearest (remove_scale_factor (to_float value) factor)))
  normalize _ value factor = value

  -- `int(None)` raises
  abbrev pub whole : Option (Value W) → Result Failure ℤ
  whole none = err type_error
  whole (some value) = ok (to_int value)

  -- `[int(value)]`: no width check here, `write_multiple_registers` masks it
  encode_as : PointType → Option (Value W) → Result Failure (List ℤ)
  unfolding encode_signed_16 encode_signed_32 encode_unsigned_32
  encode_as uint16 value = do n ← whole value; ok (n ∷ [])
  encode_as enum16 value = do n ← whole value; ok (n ∷ [])
  encode_as bitfield16 value = do n ← whole value; ok (n ∷ [])
  encode_as int16 value = do n ← whole value; r ← encode_signed_16 n; ok (pos r ∷ [])
  encode_as uint32 value = do n ← whole value; rs ← encode_unsigned_32 n; ok (integers rs)
  encode_as acc32 value = do n ← whole value; rs ← encode_unsigned_32 n; ok (integers rs)
  encode_as bitfield32 value = do n ← whole value; rs ← encode_unsigned_32 n; ok (integers rs)
  encode_as int32 value = do n ← whole value; rs ← encode_signed_32 n; ok (integers rs)
  encode_as _ value = err modbus_source_error

  unfoldable pub encode_point_registers :
      SunSpecPoint → Option (Value W) → Option ℤ → Result Failure (List ℤ)
  unfolding encode_as normalize
  encode_point_registers point value factor =
      encode_as point.point_type (normalize point.scale_factor value factor)
