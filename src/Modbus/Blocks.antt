-- ===== src/Modbus/Blocks.antt =====
-- services/modbus.py: the chain of model blocks of a SunSpec device.
pub mod Chain
use helios_home.Prelude.{
  ℕ, zero, suc, ◌+◌, ◌-◌, Bool, true, false, ◌||◌, Option, none, some, List, [], ◌∷◌, map, Result,
  ok, err, ltb, leb, ◌==◌, if◌then◌else◌, length, get_or, ◌&&◌,
}
use helios_home.Modbus.Codec.{Failure}
use helios_home.Modbus.Transport.{Peer, Io}
use helios_home.Modbus.Registers.{read_register_window, bytes_of}

pub record SunSpecModelBlock : Type 0 where
  pub model_id : ℕ
  pub length : ℕ
  pub start_register : ℕ

-- `model_id in SUNSPEC_TERMINATOR_IDS`
abbrev pub is_terminator : ℕ → Bool
is_terminator model_id = model_id == 0x0000 || model_id == 0xFFFF

-- The `while offset + 1 < len(registers)` loop; each round moves `offset` by two at least.
parse_from : ℕ → List ℕ → ℕ → ℕ → List SunSpecModelBlock
parse_from zero registers start_register offset = []
parse_from (suc fuel) registers start_register offset =
    let model_id = get_or registers offset 0 in
    let size = get_or registers (offset + 1) 0 in
    let rest = parse_from fuel registers start_register (offset + (2 + size)) in
    if ltb (offset + 1) (length registers)
    then (if is_terminator model_id
        then []
        else if leb size 0
        then []
        else record { model_id = model_id; length = size; start_register = start_register + offset }
          ∷ rest)
    else []

unfoldable pub parse_sunspec_model_blocks : List ℕ → ℕ → List SunSpecModelBlock
unfolding parse_from
parse_sunspec_model_blocks registers start_register =
    parse_from (length registers) registers start_register 0

unfoldable pub parse_sunspec_model_ids : List ℕ → List ℕ
unfolding parse_sunspec_model_blocks
parse_sunspec_model_ids registers =
    map (λ (b : SunSpecModelBlock). b.model_id) (parse_sunspec_model_blocks registers 0)

keep_block :
    {S : Type 0}
    → SunSpecModelBlock
    → Result Failure (List SunSpecModelBlock) × S
    → Result Failure (List SunSpecModelBlock) × S
keep_block block (ok blocks, s) = (ok (block ∷ blocks), s)
keep_block block (err e, s) = (err e, s)

-- What `errors="ignore"` leaves of the bytes of a signature.
ascii_only : List ℕ → List ℕ
ascii_only [] = []
ascii_only (b ∷ bs) = if ltb b 128 then b ∷ ascii_only bs else ascii_only bs

same_bytes : List ℕ → List ℕ → Bool
same_bytes [] [] = true
same_bytes (a ∷ more) (b ∷ bs) = (a == b) && same_bytes more bs
same_bytes _ _ = false

-- `signature_text == "SunS"`
unfoldable pub is_signature : List ℕ → Bool
unfolding ascii_only same_bytes
is_signature (high ∷ low ∷ []) =
    same_bytes (ascii_only (bytes_of (high ∷ low ∷ []))) (0x53 ∷ 0x75 ∷ 0x6E ∷ 0x53 ∷ [])
is_signature _ = false

module _ {S : Type 0} (peer : Peer S) (unit_id : ℕ) where
  -- What a header that was read makes of a round: `continue` is the rest of the loop.
  block_round :
      ℕ
      → Result Failure (Option (List ℕ)) × S
      → (ℕ → Io S (List SunSpecModelBlock))
      → Result Failure (List SunSpecModelBlock) × S
  unfolding keep_block
  block_round cursor (err e, s) continue = (err e, s)
  block_round cursor (ok (some (model_id ∷ size ∷ [])), s) continue =
      if is_terminator model_id
      then (ok [], s)
      else if leb size 0
      then (ok [], s)
      else keep_block (record { model_id = model_id; length = size; start_register = cursor })
          (continue (cursor + (2 + size)) s)
  block_round cursor (ok _, s) continue = (ok [], s)

  read_rounds : ℕ → ℕ → Io S (List SunSpecModelBlock)
  unfolding block_round
  read_rounds zero cursor s = (ok [], s)
  read_rounds (suc rounds) cursor s =
      block_round cursor (read_register_window peer unit_id cursor 2 s) (read_rounds rounds)

  unfoldable pub read_sunspec_model_blocks : ℕ → Io S (List SunSpecModelBlock)
  unfolding read_rounds
  read_sunspec_model_blocks base_register = read_rounds 16 (base_register + 2)

  detected :
      ℕ
      → Result Failure (List SunSpecModelBlock) × S
      → Result Failure (Option ℕ × List SunSpecModelBlock) × S
  detected base (ok blocks, s) = (ok (some base, blocks), s)
  detected base (err e, s) = (err e, s)

  -- One base address: `next` tries the following ones.
  try_base :
      ℕ
      → Result Failure (Option (List ℕ)) × S
      → Io S (Option ℕ × List SunSpecModelBlock)
      → Result Failure (Option ℕ × List SunSpecModelBlock) × S
  unfolding detected
  try_base base (err e, s) next = (err e, s)
  try_base base (ok none, s) next = next s
  try_base base (ok (some signature), s) next =
      if is_signature signature then detected base (read_sunspec_model_blocks base s) else next s

  detect_from : List ℕ → Io S (Option ℕ × List SunSpecModelBlock)
  unfolding try_base
  detect_from [] s = (ok (none, []), s)
  detect_from (base ∷ bases) s =
      try_base base (read_register_window peer unit_id base 2 s) (detect_from bases)

  unfoldable pub detect_sunspec_base : Io S (Option ℕ × List SunSpecModelBlock)
  unfolding detect_from
  detect_sunspec_base s = detect_from (40000 ∷ 39999 ∷ []) s
