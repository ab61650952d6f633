-- ===== src/Modbus/Registers.antt =====
-- services/modbus.py: reading and writing holding registers.
pub mod Window
use helios_home.Prelude.{
  ℕ, zero, suc, ◌+◌, ◌-◌, ◌*◌, ◌/◌, ◌%◌, min, Bool, true, false, not, ◌&&◌, ◌||◌, Option, none,
  some, List, [], ◌∷◌, ◌++◌, map, ℤ, pos, negsuc, Result, ok, err, ltb, leb, ◌==◌, if◌then◌else◌,
  length, take, drop, ◌>>=◌,
}
use helios_home.Modbus.Codec.{
  Failure, modbus_source_error, struct_error, index_error, type_error, os_error,
}
use helios_home.Modbus.Transport.{Peer, Io, be_16, word, pack_16, send_modbus_request}

abbrev pub modbus_max_read_count : ℕ
modbus_max_read_count = 120

-- `struct.unpack("!nH", ...)` of an even number of bytes; `none` where the number is odd.
unfoldable pub registers_of : List ℕ → Option (List ℕ)
registers_of [] = some []
registers_of (b ∷ []) = none
registers_of (high ∷ low ∷ rest) = elim (registers_of rest) [
  | none ↦ none
  | some rs ↦ some (word high low ∷ rs)
]

holding_registers : List ℕ → Option (List ℕ)
unfolding registers_of
holding_registers (function ∷ byte_count ∷ payload) =
    if function == 0x03 then registers_of (take byte_count payload) else none
holding_registers _ = none

-- `except (OSError, ModbusSourceError): return None`; any other exception goes through.
unfoldable pub caught : {A B : Type 0} → B → (A → B) → Result Failure A → Result Failure B
caught nothing f (ok a) = ok (f a)
caught nothing f (err os_error) = ok nothing
caught nothing f (err modbus_source_error) = ok nothing
caught nothing f (err e) = err e

-- `struct.pack("!BHH", 0x03, address, count)`
read_request : ℕ → ℕ → Result Failure (List ℕ)
unfolding pack_16
read_request address count = do a ← pack_16 address; c ← pack_16 count; ok (0x03 ∷ a ++ c)

-- `int(value) & 0xFFFF`
unfoldable pub masked : ℤ → ℕ
masked (pos n) = n % 65536
masked (negsuc n) = 65535 - n % 65536

abbrev pub all_masked : List ℤ → List ℕ
all_masked [] = []
all_masked (v ∷ vs) = masked v ∷ all_masked vs

abbrev pub bytes_of : List ℕ → List ℕ
bytes_of [] = []
bytes_of (r ∷ rs) = (r / 256) ∷ (r % 256) ∷ bytes_of rs

-- `struct.pack("!BHHBnH", 0x10, address, count, 2 * count, ...)`; a masked value fits its field.
write_request : ℕ → List ℕ → Result Failure (List ℕ)
unfolding pack_16
write_request address values = do
  a ← pack_16 address
  c ← pack_16 (length values)
  n ← (if ltb (length values * 2) 256 then ok (length values * 2) else err struct_error)
  ok (0x10 ∷ a ++ (c ++ (n ∷ bytes_of values)))

acknowledged : ℕ → ℕ → List ℕ → Bool
acknowledged address count (function ∷ a1 ∷ a0 ∷ c1 ∷ c0 ∷ []) =
    (function == 0x10) && ((word a1 a0 == address) && (word c1 c0 == count))
acknowledged address count _ = false

module _ {S : Type 0} (peer : Peer S) (unit_id : ℕ) where
  requested : Result Failure (List ℕ) → ℕ → Io S (List ℕ)
  requested (ok pdu) transaction s = send_modbus_request peer unit_id pdu transaction s
  requested (err e) transaction s = (err e, s)

  unfoldable pub read_holding_registers : ℕ → ℕ → Io S (Option (List ℕ))
  unfolding requested caught holding_registers read_request
  read_holding_registers address count s =
      let (response, s') = requested (read_request address count) (2 + address % 1000) s in
      (caught none holding_registers response, s')

  unfoldable pub write_multiple_registers : ℕ → List ℤ → Io S Bool
  unfolding requested caught acknowledged masked write_request
  write_multiple_registers address [] s = (err modbus_source_error, s)
  write_multiple_registers address (v ∷ vs) s =
      let values = all_masked (v ∷ vs) in
      let (response, s') = requested (write_request address values) (4000 + address % 1000) s in
      (caught false (acknowledged address (length values)) response, s')

  -- One round of the loop: a chunk of the wrong length ends it.
  extend :
      ℕ
      → Result Failure (Option (List ℕ)) × S
      → (List ℕ → Io S (Option (List ℕ)))
      → Result Failure (Option (List ℕ)) × S
  extend size (err e, s) continue = (err e, s)
  extend size (ok none, s) continue = (ok none, s)
  extend size (ok (some chunk), s) continue =
      if length chunk == size then continue chunk s else (ok none, s)

  -- The `while remaining > 0` loop. Each round takes at least one register, so `remaining` rounds are
  -- enough.
  window_loop : ℕ → List ℕ → ℕ → ℕ → Io S (Option (List ℕ))
  unfolding extend
  window_loop zero registers cursor remaining s = (ok (some registers), s)
  window_loop (suc fuel) registers cursor remaining s =
      let size = min remaining modbus_max_read_count in
      let next =
        extend size (read_holding_registers cursor size s)
          λ chunk. window_loop fuel (registers ++ chunk) (cursor + size) (remaining - size) in
      if ltb 0 remaining then next else (ok (some registers), s)

  unfoldable pub read_register_window : ℕ → ℕ → Io S (Option (List ℕ))
  unfolding window_loop
  read_register_window address count s = window_loop count [] address count s
