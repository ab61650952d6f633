-- ===== src/Modbus/Blocks/Chain.antt =====
-- Laying model blocks out as registers and finding them again, in a list of registers and over the wire.
use mathlib.Core.List.{append_assoc}
use helios_home.Prelude.{
  ℕ, zero, suc, ◌+◌, ◌≤◌, ◌<◌, ◌≡◌, refl, ap, ◌∙◌, true, false, ◌||◌, some, List, [], ◌∷◌, ◌++◌, ok,
  ltb, leb, length, get_or, arith, length-append, lt→ltb,
}
use helios_home.Modbus.Blocks.{
  SunSpecModelBlock, is_terminator, parse_from, parse_sunspec_model_blocks, read_rounds,
  read_sunspec_model_blocks,
}
use helios_home.Modbus.Transport.{Peer}
use helios_home.Modbus.Registers.{read_register_window}
use helios_home.Modbus.Registers.Window.{Serves, read_register_window-serves}

-- A model: its id and its body.
pub record Model : Type 0 where
  pub id : ℕ
  pub body : List ℕ

-- An id that does not end the chain, and a body that is not empty.
abbrev pub AreValid : List Model → Type 0
AreValid [] = Unit
AreValid (m ∷ ms) = (is_terminator m.id ≡ false) × (0 < length m.body) × AreValid ms

abbrev pub layout : List Model → List ℕ → List ℕ
layout [] tail = tail
layout (m ∷ ms) tail = m.id ∷ length m.body ∷ m.body ++ layout ms tail

-- The blocks of models that stand one behind another from `start` on.
abbrev pub blocks_at : ℕ → List Model → List SunSpecModelBlock
blocks_at start [] = []
blocks_at start (m ∷ ms) =
    record { model_id = m.id; length = length m.body; start_register = start }
    ∷ blocks_at (start + (2 + length m.body)) ms

-- What stands behind the last model: nothing more than one register, a terminator, or an empty block.
abbrev pub EndsChain : List ℕ → Type 0
EndsChain [] = Unit
EndsChain (id ∷ []) = Unit
EndsChain (id ∷ size ∷ rest) = (is_terminator id || leb size 0) ≡ true

get_or-length {ℓ} :
    {A : Type ℓ} (pre rest : List A) (x d : A) → get_or (pre ++ x ∷ rest) (length pre) d ≡ x
get_or-length [] rest x d = refl
get_or-length (p ∷ pre) rest x d = get_or-length pre rest x d

get_or-length_suc {ℓ} :
    {A : Type ℓ} (pre rest : List A) (x y d : A)
    → get_or (pre ++ x ∷ y ∷ rest) (suc (length pre)) d ≡ y
get_or-length_suc [] rest x y d = refl
get_or-length_suc (p ∷ pre) rest x y d = get_or-length_suc pre rest x y d

parse_from-end :
    (fuel : ℕ) (pre tail : List ℕ) (start : ℕ)
    → EndsChain tail
    → parse_from fuel (pre ++ tail) start (length pre) ≡ []
unfolding parse_from
parse_from-end zero pre tail start h = refl
parse_from-end (suc fuel) pre [] start h =
    let short : ltb (length pre + 1) (length (pre ++ [])) ≡ false =
      ground (arith, length-append pre []) in
    rw short
parse_from-end (suc fuel) pre (x ∷ []) start h =
    let short : ltb (length pre + 1) (length (pre ++ x ∷ [])) ≡ false =
      ground (arith, length-append pre (x ∷ [])) in
    rw short
parse_from-end (suc fuel) pre (x ∷ y ∷ rest) start h =
    let one : length pre + 1 ≡ suc (length pre) = omega arith in
    rw one (rw (get_or-length pre (y ∷ rest) x 0, get_or-length_suc pre rest x y 0) (ground arith))

parse_from-layout :
    (ms : List Model) (fuel : ℕ) (pre tail : List ℕ) (start : ℕ)
    → AreValid ms
    → EndsChain tail
    → length (layout ms tail) ≤ fuel
    → parse_from fuel (pre ++ layout ms tail) start (length pre) ≡ blocks_at (start + length pre) ms
unfolding parse_from
parse_from-layout [] fuel pre tail start v e le = parse_from-end fuel pre tail start e
parse_from-layout (m ∷ ms) zero pre tail start v e le = absurd (omega arith)
parse_from-layout (m ∷ ms) (suc fuel) pre tail start v e le =
    let one : length pre + 1 ≡ suc (length pre) = omega arith in
    let block = m.id ∷ length m.body ∷ m.body in
    let rest = layout ms tail in
    let long : ltb (suc (length pre)) (length (pre ++ (block ++ rest))) ≡ true =
      lt→ltb _ _ (omega (arith, length-append pre (block ++ rest))) in
    let full : leb (length m.body) 0 ≡ false = ground arith in
    let ih =
      parse_from-layout ms fuel (pre ++ block) tail start v.2 e
        (omega (arith, length-append m.body rest)) in
    let moved : length (pre ++ block) ≡ length pre + (2 + length m.body) =
      omega (arith, length-append pre block) in
    let ih' : parse_from fuel (pre ++ (block ++ rest)) start (length pre + (2 + length m.body))
        ≡ blocks_at (start + (length pre + (2 + length m.body))) ms =
      rw (append_assoc pre block rest, moved) at ih in
    let assoc : start + length pre + (2 + length m.body)
        ≡ start + (length pre + (2 + length m.body)) =
      omega arith in
    rw (one, assoc)
      (rw (
        long,
        get_or-length pre (length m.body ∷ (m.body ++ rest)) m.id 0,
        get_or-length_suc pre (m.body ++ rest) m.id (length m.body) 0,
        v.0,
        full,
        ih',
      ))

-- Parsing a layout of models gives back every model, in order, with its id, its length and the register
-- at which it starts, and nothing of what stands behind them.
pub parse_sunspec_model_blocks-layout :
    (ms : List Model) (tail : List ℕ) (start : ℕ)
    → AreValid ms
    → EndsChain tail
    → parse_sunspec_model_blocks (layout ms tail) start ≡ blocks_at start ms
unfolding parse_sunspec_model_blocks
parse_sunspec_model_blocks-layout ms tail start v e =
    let h = parse_from-layout ms (length (layout ms tail)) [] tail start v e (omega arith) in
    let z : start + 0 ≡ start = omega arith in h ∙ ap (λ k. blocks_at k ms) z

-- The registers from `address` on hold the listed values.
abbrev pub HoldsAt : (ℕ → ℕ) → ℕ → List ℕ → Type 0
HoldsAt cell address [] = Unit
HoldsAt cell address (r ∷ rs) = (cell address ≡ r) × HoldsAt cell (address + 1) rs

HoldsAt-append :
    (cell : ℕ → ℕ) (a : ℕ) (xs ys : List ℕ)
    → HoldsAt cell a (xs ++ ys)
    → HoldsAt cell (a + length xs) ys
HoldsAt-append cell a [] ys h = let e : a + 0 ≡ a = omega arith in rw e h
HoldsAt-append cell a (x ∷ xs) ys h =
    let e : a + suc (length xs) ≡ a + 1 + length xs = omega arith in
    rw e (HoldsAt-append cell (a + 1) xs ys h.1)

module _ {S : Type 0} (peer : Peer S) (unit : ℕ) (cell : S → ℕ → ℕ) (fits : unit < 256)
    (serves : Serves peer unit cell) where
  header_read :
      (a x y : ℕ) (s : S)
      → a + 2 ≤ 65536
      → cell s a ≡ x
      → cell s (a + 1) ≡ y
      → read_register_window peer unit a 2 s ≡ (ok (some (x ∷ y ∷ [])), s)
  header_read a x y s h p q = read_register_window-serves peer unit cell fits serves a 2 s h ∙ λ i.
      (ok (some (p i ∷ q i ∷ [])), s)

  read_rounds-layout :
      (ms : List Model) (rounds a x y : ℕ) (s : S)
      → AreValid ms
      → EndsChain (x ∷ y ∷ [])
      → length ms ≤ rounds
      → a + length (layout ms (x ∷ y ∷ [])) ≤ 65536
      → HoldsAt (cell s) a (layout ms (x ∷ y ∷ []))
      → read_rounds peer unit rounds a s ≡ (ok (blocks_at a ms), s)
  unfolding read_rounds
  read_rounds-layout [] zero a x y s v e le fit at = refl
  read_rounds-layout [] (suc n) a x y s v e le fit at =
      rw (header_read a x y s (omega arith) at.0 at.1.0) (ground arith)
  read_rounds-layout (m ∷ ms) zero a x y s v e le fit at = absurd (omega arith)
  read_rounds-layout (m ∷ ms) (suc n) a x y s v e le fit at =
      let full : leb (length m.body) 0 ≡ false = ground arith in
      let two : a + 1 + 1 + length m.body ≡ a + (2 + length m.body) = omega arith in
      let behind = HoldsAt-append (cell s) (a + 1 + 1) m.body (layout ms (x ∷ y ∷ [])) at.1.1 in
      let rest =
        read_rounds-layout ms n (a + (2 + length m.body)) x y s v.2 e (omega arith)
          (omega (arith, length-append m.body (layout ms (x ∷ y ∷ [])))) (rw two at behind) in
      rw (header_read a m.id (length m.body) s (omega arith) at.0 at.1.0) (rw (v.0, full, rest))

  -- Against a peer that serves a layout of at most 16 models behind the two signature registers, the
  -- chain that is read over the wire is the one that parsing the layout gives.
  pub read_sunspec_model_blocks-layout :
      (ms : List Model) (base x y : ℕ) (s : S)
      → AreValid ms
      → EndsChain (x ∷ y ∷ [])
      → length ms ≤ 16
      → base + 2 + length (layout ms (x ∷ y ∷ [])) ≤ 65536
      → HoldsAt (cell s) (base + 2) (layout ms (x ∷ y ∷ []))
      → read_sunspec_model_blocks peer unit base s
        ≡ (ok (parse_sunspec_model_blocks (layout ms (x ∷ y ∷ [])) (base + 2)), s)
  unfolding read_sunspec_model_blocks
  read_sunspec_model_blocks-layout ms base x y s v e le fit at =
      rw (parse_sunspec_model_blocks-layout ms (x ∷ y ∷ []) (base + 2) v e)
        (read_rounds-layout ms 16 (base + 2) x y s v e le fit at)
