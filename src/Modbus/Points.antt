-- ===== src/Modbus/Points.antt =====
-- services/modbus.py: the points of a model, read from its registers and written to them in chunks.
pub mod Chunks
use helios_home.Prelude.{
  ℕ, zero, suc, ◌+◌, Bool, true, false, Option, none, some, List, [], ◌∷◌, ◌++◌, map, String,
  str_eq, ℤ, Result, ok, err, ltb, leb, ◌==◌, if◌then◌else◌, length, take, drop, ◌>>=◌,
}
use helios_home.Prelude.Float.{Float}
use helios_home.Prelude.Sort.{sort_by}
use helios_home.Modbus.Models.Definitions.{definitions_of, model_point_definitions}
use helios_home.Modbus.Codec.{
  Failure, modbus_source_error, SunSpecPoint, Value, int, float, decode_point_value,
  encode_point_registers,
}
use helios_home.Modbus.Transport.{Peer, Io}
use helios_home.Modbus.Registers.{read_register_window, write_multiple_registers}
use helios_home.Modbus.Blocks.{SunSpecModelBlock}

-- A dictionary: a key that is set again keeps its place.
abbrev pub Dict {ℓ} : Type ℓ → Type ℓ
Dict V = List (String × V)

module _ {ℓ} {V : Type ℓ} where
  unfoldable pub get : Dict V → String → Option V
  get [] k = none
  get ((j, v) ∷ d) k = if str_eq j k then some v else get d k

  unfoldable pub put : Dict V → String → V → Dict V
  put [] k v = (k, v) ∷ []
  put ((j, w) ∷ d) k v = if str_eq j k then (j, v) ∷ d else (j, w) ∷ put d k v

-- `_point_offsets`, from the dictionary so far and `cursor`.
offsets_from : Dict (SunSpecPoint × ℕ) → ℕ → List SunSpecPoint → Dict (SunSpecPoint × ℕ)
unfolding put
offsets_from offsets cursor [] = offsets
offsets_from offsets cursor (point ∷ points) =
    offsets_from (put offsets point.name (point, cursor)) (cursor + point.size) points

unfoldable pub point_offsets : List SunSpecPoint → Dict (SunSpecPoint × ℕ)
unfolding offsets_from
point_offsets points = offsets_from [] 0 points

-- A point that is to be written: its definition, its offset in the model, and the value.
pub record Entry (W : Type 0) : Type 0 where
  pub point : SunSpecPoint
  pub offset : ℕ
  pub value : Option (Value W)

-- Registers to write, each chunk with the address of its first.
abbrev pub ChunkList : Type 0
ChunkList = List (ℕ × List ℤ)

-- The chunk that is open: its address and what it holds so far.
abbrev pub Open : Type 0
Open = Option (ℕ × List ℤ)

abbrev close : Open → ChunkList → ChunkList
close none chunks = chunks
close (some (address, [])) chunks = chunks
close (some (address, v ∷ vs)) chunks = chunks ++ (address, v ∷ vs) ∷ []

-- One point more: it extends the open chunk if it follows it directly, else it opens the next.
advance : ℕ → List ℤ → Open → ChunkList → Open × ChunkList
advance address encoded none chunks = (some (address, encoded), chunks)
advance address encoded (some (start, payload)) chunks =
    if address == start + length payload
    then (some (start, payload ++ encoded), chunks)
    else (some (address, encoded), chunks ++ (start, payload) ∷ [])

module _ {S : Type 0} (peer : Peer S) (unit_id : ℕ) where
  -- `all(...)` over a generator: the first chunk that is not acknowledged ends the writes.
  write_next : Result Failure Bool × S → Io S Bool → Result Failure Bool × S
  write_next (ok true, s) next = next s
  write_next (ok false, s) next = (ok false, s)
  write_next (err e, s) next = (err e, s)

  write_all : ChunkList → Io S Bool
  unfolding write_next
  write_all [] s = (ok true, s)
  write_all ((address, payload) ∷ rest) s =
      write_next (write_multiple_registers peer unit_id address payload s) (write_all rest)

  written : Result Failure ChunkList → Io S Bool
  unfolding write_all
  written (ok chunks) s = write_all chunks s
  written (err e) s = (err e, s)

module _ {W : Type 0} ⦃fl : Float W⦄ where
  -- `registers[offset:end]` while the registers last.
  parse_points :
      List ℕ
      → ℕ
      → List SunSpecPoint
      → Dict (Option (Value W))
      → Result Failure (Dict (Option (Value W)))
  unfolding put
  parse_points registers offset [] parsed = ok parsed
  parse_points registers offset (point ∷ points) parsed =
      let rest = (do
        value ← decode_point_value point (take point.size (drop offset registers))
        parse_points registers (offset + point.size) points (put parsed point.name value)) in
      if ltb (length registers) (offset + point.size) then ok parsed else rest

  unfoldable pub parse_sunspec_register_block :
      List ℕ → List SunSpecPoint → Result Failure (Dict (Option (Value W)))
  unfolding parse_points
  parse_sunspec_register_block registers points = parse_points registers 0 points []

  -- `offsets[point_name]` for each point to write; a name that the model lacks raises.
  unfoldable pub entries :
      Dict (SunSpecPoint × ℕ) → Dict (Option (Value W)) → Result Failure (List (Entry W))
  unfolding get
  entries offsets [] = ok []
  entries offsets ((name, value) ∷ rest) = elim (get offsets name) [
    | none ↦ err modbus_source_error
    | some (point, offset) ↦ do
      more ← entries offsets rest
      ok (record { point = point; offset = offset; value = value } ∷ more)
  ]

  -- `sorted(point_values, key=offset)`
  sort_entries : List (Entry W) → List (Entry W)
  unfolding sort_by
  sort_entries = sort_by (λ e f. leb e.offset f.offset)

  -- The scale factor that was read with the model: a decoded `sunssf`, a whole number.
  abbrev as_factor : Option (Option (Value W)) → Option ℤ
  as_factor (some (some (int n))) = some n
  as_factor _ = none

  factor_of : Dict (Option (Value W)) → Option String → Option ℤ
  unfolding get
  factor_of current none = none
  factor_of current (some name) = as_factor (get current name)

  pub encode_entry : Dict (Option (Value W)) → Entry W → Result Failure (List ℤ)
  unfolding factor_of
  encode_entry current e =
      encode_point_registers e.point e.value (factor_of current e.point.scale_factor)

  pub coalesce :
      ℕ → Dict (Option (Value W)) → List (Entry W) → Open → ChunkList → Result Failure ChunkList
  unfolding encode_entry advance
  coalesce base current [] open_chunk chunks = ok (close open_chunk chunks)
  coalesce base current (e ∷ es) open_chunk chunks = do
    encoded ← encode_entry current e
    let next = advance (base + e.offset) encoded open_chunk chunks
    coalesce base current es next.0 next.1

  pub write_chunks :
      SunSpecModelBlock
      → List SunSpecPoint
      → Dict (Option (Value W))
      → Dict (Option (Value W))
      → Result Failure ChunkList
  unfolding point_offsets entries sort_entries coalesce
  write_chunks block points current point_values = do
    es ← entries (point_offsets points) point_values
    coalesce block.start_register current (sort_entries es) none []

  module _ {S : Type 0} (peer : Peer S) (unit_id : ℕ) where
    write_under :
        Option (List SunSpecPoint)
        → SunSpecModelBlock
        → Dict (Option (Value W))
        → Dict (Option (Value W))
        → Io S Bool
    unfolding written write_chunks
    write_under none block current point_values s = (err modbus_source_error, s)
    write_under (some points) block current point_values s =
        written peer unit_id (write_chunks block points current point_values) s

    unfoldable pub write_sunspec_model_points :
        SunSpecModelBlock → Dict (Option (Value W)) → Dict (Option (Value W)) → Io S Bool
    unfolding write_under definitions_of
    write_sunspec_model_points block =
        write_under (definitions_of block.model_id model_point_definitions) block

    parsed_values :
        List SunSpecPoint
        → Result Failure (Option (List ℕ)) × S
        → Result Failure (Option (Dict (Option (Value W)))) × S
    unfolding parse_sunspec_register_block
    parsed_values points (err e, s) = (err e, s)
    parsed_values points (ok none, s) = (ok none, s)
    parsed_values points (ok (some registers), s) =
        if ltb (length registers) 2
        then (ok none, s)
        else ((do parsed ← parse_sunspec_register_block registers points; ok (some parsed)), s)

    read_under :
        Option (List SunSpecPoint) → SunSpecModelBlock → Io S (Option (Dict (Option (Value W))))
    unfolding parsed_values
    read_under none block s = (ok none, s)
    read_under (some points) block s =
        parsed_values points
          (read_register_window peer unit_id block.start_register (block.length + 2) s)

    unfoldable pub read_sunspec_model_values :
        SunSpecModelBlock → Io S (Option (Dict (Option (Value W))))
    unfolding read_under definitions_of
    read_sunspec_model_values block =
        read_under (definitions_of block.model_id model_point_definitions) block
