-- ===== src/Modbus/Tests.antt =====
-- The Modbus theorems at concrete inputs: a peer that holds its registers in a function.
use mathlib.Core.List.{append-nil, Perm}
use helios_home.Prelude.{
  ℕ, ◌-◌, ◌/◌, ◌%◌, ◌≡◌, refl, List, [], ◌∷◌, arith, Option, some, none, ok, err, ℤ, pos, negsuc,
  Result, length, get_or, true,
}
use helios_home.Prelude.Float.{units}
use helios_home.Modbus.Codec.{
  Failure, modbus_source_error, PointType, SunSpecPoint, Value, normalize, encode_point_registers,
  decode_point_value, integers,
}
use helios_home.Modbus.Codec.RoundTrip.{decode-encode_point, Registers}
use helios_home.Modbus.Transport.{Arrival, chunk, Peer, word, recv_exact, send_modbus_request}
use helios_home.Modbus.Transport.Stream.{IsSound, content, recv_exact_lem}
use helios_home.Modbus.Transport.Response.{frame, word_bytes}
use helios_home.Modbus.Transport.Reply.{send_modbus_request-transacted}
use helios_home.Modbus.Registers.{masked, read_register_window, write_multiple_registers, bytes_of}
use helios_home.Modbus.Registers.Window.{
  Serves, Stores, cells, read_answer, read_register_window-serves, write_multiple_registers-stores,
}
use helios_home.Modbus.Blocks.{
  SunSpecModelBlock, parse_sunspec_model_blocks, read_sunspec_model_blocks,
}
use helios_home.Modbus.Blocks.Chain.{
  Model, layout, blocks_at, parse_sunspec_model_blocks-layout, read_sunspec_model_blocks-layout,
}
use helios_home.Modbus.Models.Der.{der_capacity_points}
use helios_home.Modbus.Models.Definitions.{definitions_of, are_sound, definitions_of_sound}
use helios_home.Modbus.Points.{entries, point_offsets, Dict, Entry, write_chunks}
use helios_home.Modbus.Points.Chunks.{IsSorted, cells_result, encode_each, write_chunks-encode_each}

abbrev Memory : Type 0
Memory = ℕ → ℕ

abbrev cell : Memory → ℕ → ℕ
cell m a = m a

-- The registers of a write, the latest first.
abbrev store : List (ℕ × List ℕ) → ℕ → List ℕ → List (ℕ × List ℕ)
store log a rs = (a, rs) ∷ log

abbrev reading : Memory → List ℕ → Result Failure (List Arrival) × Memory
reading m (t1 ∷ t0 ∷ p1 ∷ p0 ∷ l1 ∷ l0 ∷ u ∷ f ∷ a1 ∷ a0 ∷ c1 ∷ c0 ∷ []) =
    (ok (chunk (frame (word t1 t0) u (read_answer (cells m (word a1 a0) (word c1 c0)))) ∷ []), m)
reading m _ = (err Failure.os_error, m)

abbrev words : List ℕ → List ℕ
words [] = []
words (b ∷ []) = []
words (high ∷ low ∷ rest) = word high low ∷ words rest

abbrev writing : List (ℕ × List ℕ) → List ℕ → Result Failure (List Arrival) × List (ℕ × List ℕ)
writing log (t1 ∷ t0 ∷ p1 ∷ p0 ∷ l1 ∷ l0 ∷ u ∷ f ∷ a1 ∷ a0 ∷ c1 ∷ c0 ∷ n ∷ payload) = (
  ok (chunk (frame (word t1 t0) u (0x10 ∷ a1 ∷ a0 ∷ c1 ∷ c0 ∷ [])) ∷ []),
  store log (word a1 a0) (words payload),
)
writing log _ = (err Failure.os_error, log)

abbrev reader : Peer Memory
reader = record { connect = λ m. ok tt; exchange = reading }

abbrev writer : Peer (List (ℕ × List ℕ))
writer = record { connect = λ log. ok tt; exchange = writing }

words-bytes_of : (rs : List ℕ) → words (bytes_of rs) ≡ rs
words-bytes_of [] = refl
words-bytes_of (r ∷ rs) = rw (word_bytes r) (rw (words-bytes_of rs) refl)

reader-Serves : Serves reader 1 cell
reader-Serves = record {
  connects = λ m. refl;
  reads = λ m t a c ht ha hc hm. (
    chunk (frame t 1 (read_answer (cells m a c))) ∷ [],
    rw (word_bytes t, word_bytes a, word_bytes c) refl,
    (omega arith, tt),
    append-nil (frame t 1 (read_answer (cells m a c))),
  );
}

writer-Stores : Stores writer 1 store
writer-Stores = record {
  connects = λ log. refl;
  writes = λ log t a rs ht ha hc hm. (
    chunk (frame t 1 (0x10 ∷ (a / 256) ∷ (a % 256) ∷ (length rs / 256) ∷ (length rs % 256) ∷ []))
        ∷ [],
    rw (word_bytes t, word_bytes a, words-bytes_of rs) refl,
    (omega arith, tt),
    append-nil
        (frame t 1 (0x10 ∷ (a / 256) ∷ (a % 256) ∷ (length rs / 256) ∷ (length rs % 256) ∷ [])),
  );
}

-- A device with two models from register 40000 on.
abbrev device : Memory
device a = get_or (0x5375 ∷ 0x6E53 ∷ 1 ∷ 2 ∷ 10 ∷ 20 ∷ 103 ∷ 1 ∷ 5 ∷ 65535 ∷ 0 ∷ []) (a - 40000) 0

abbrev models : List Model
models = record { id = 1; body = 10 ∷ 20 ∷ [] } ∷ record { id = 103; body = 5 ∷ [] } ∷ []

recv_exact_lem_example :
    (rest : List Arrival) × (recv_exact 3 (chunk (1 ∷ 2 ∷ []) ∷ chunk (3 ∷ 4 ∷ []) ∷ [])
      ≡ ok (1 ∷ 2 ∷ 3 ∷ [], rest))
    × IsSound rest
    × (content rest ≡ 4 ∷ [])
recv_exact_lem_example =
    recv_exact_lem 3 (chunk (1 ∷ 2 ∷ []) ∷ chunk (3 ∷ 4 ∷ []) ∷ []) (omega arith, (omega arith, tt))
      (omega arith)

-- A peer that answers every request with an exception, in two pieces.
abbrev refusing : Peer Memory
refusing = record {
  connect = λ m. ok tt;
  exchange =
      λ m request. (ok (chunk (0 ∷ 7 ∷ 0 ∷ []) ∷ chunk (0 ∷ 0 ∷ 3 ∷ 1 ∷ 131 ∷ 2 ∷ []) ∷ []), m);
}

send_modbus_request-transacted_example :
    send_modbus_request refusing 1 (3 ∷ 156 ∷ 66 ∷ 0 ∷ 2 ∷ []) 7 device
    ≡ (err modbus_source_error, device)
send_modbus_request-transacted_example =
    send_modbus_request-transacted refusing 1 (3 ∷ 156 ∷ 66 ∷ 0 ∷ 2 ∷ []) 7 device
      (omega arith, (omega arith, tt))

read_register_window-serves_example :
    read_register_window reader 1 40000 300 device ≡ (ok (some (cells device 40000 300)), device)
read_register_window-serves_example =
    read_register_window-serves reader 1 cell (omega arith) reader-Serves 40000 300 device
      (omega arith)

write_multiple_registers-stores_example :
    write_multiple_registers writer 1 40010 (negsuc 0 ∷ pos 65537 ∷ []) []
    ≡ (ok true, (40010, 65535 ∷ 1 ∷ []) ∷ [])
unfolding masked
write_multiple_registers-stores_example =
    write_multiple_registers-stores writer 1 store (omega arith) writer-Stores 40010 (negsuc 0)
      (pos 65537 ∷ []) [] (omega arith) (omega arith)

parse_sunspec_model_blocks-layout_example :
    parse_sunspec_model_blocks (1 ∷ 2 ∷ 10 ∷ 20 ∷ 103 ∷ 1 ∷ 5 ∷ 65535 ∷ 0 ∷ []) 40002
    ≡ blocks_at 40002 models
parse_sunspec_model_blocks-layout_example =
    parse_sunspec_model_blocks-layout models (65535 ∷ 0 ∷ []) 40002
      (refl, omega arith, (refl, omega arith, tt)) refl

read_sunspec_model_blocks-layout_example :
    read_sunspec_model_blocks reader 1 40000 device
    ≡ (ok (parse_sunspec_model_blocks (layout models (65535 ∷ 0 ∷ [])) 40002), device)
read_sunspec_model_blocks-layout_example =
    read_sunspec_model_blocks-layout reader 1 cell (omega arith) reader-Serves models 40000 65535 0
      device (refl, omega arith, (refl, omega arith, tt)) refl (omega arith) (omega arith)
      (refl, (refl, (refl, (refl, (refl, (refl, (refl, (refl, (refl, tt)))))))))

abbrev power : SunSpecPoint
power = record { name = "W"; point_type = PointType.int16; size = 1; scale_factor = some "W_SF" }

abbrev limit : SunSpecPoint
limit = record { name = "WMax"; point_type = PointType.uint32; size = 2; scale_factor = none }

decode-encode_point_example :
    (rs : List ℕ) × (encode_point_registers {W = ℤ} power
        (some (Value.int (negsuc 41)))
        (some (pos 1))
      ≡ ok (integers rs))
    × Registers rs
    × (decode_point_value {W = ℤ} power rs ≡ ok (some (Value.int (negsuc 41))))
unfolding normalize
decode-encode_point_example =
    decode-encode_point {W = ℤ} power (some (Value.int (negsuc 41))) (some (pos 1)) (negsuc 41) refl
      (omega arith)

abbrev block : SunSpecModelBlock
block = record { model_id = 124; length = 3; start_register = 40100 }

abbrev setpoints : Dict (Option (Value ℤ))
setpoints = ("WMax", some (Value.int (pos 70000))) ∷ ("W", some (Value.int (negsuc 9))) ∷ []

abbrev known : Dict (Option (Value ℤ))
known = ("W_SF", some (Value.int (pos 0))) ∷ []

abbrev writes : List (Entry ℤ)
writes =
    record { point = limit; offset = 1; value = some (Value.int (pos 70000)) }
    ∷ record { point = power; offset = 0; value = some (Value.int (negsuc 9)) }
    ∷ []

write_chunks-encode_each_example :
    (sorted : List (Entry ℤ)) × Perm sorted writes
    × IsSorted sorted
    × (cells_result [] (write_chunks block (power ∷ limit ∷ []) known setpoints)
        ≡ cells_result [] (encode_each 40100 known sorted))
unfolding entries point_offsets
write_chunks-encode_each_example =
    write_chunks-encode_each block (power ∷ limit ∷ []) known setpoints writes refl

definitions_of_sound_example : are_sound der_capacity_points der_capacity_points ≡ true
unfolding definitions_of
definitions_of_sound_example = definitions_of_sound 702 der_capacity_points refl
