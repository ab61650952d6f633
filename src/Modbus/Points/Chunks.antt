-- ===== src/Modbus/Points/Chunks.antt =====
-- Joining neighbouring points into chunks writes what one write for each point would, register by register.
use mathlib.Core.List.{append_assoc, append-nil, Perm}
use helios_home.Prelude.{
  ℕ, suc, ◌+◌, ◌≡◌, refl, ap, sym, ◌∙◌, Option, none, some, List, [], ◌∷◌, ◌++◌, ℤ, Result, ok, err,
  leb, ◌==◌, ==_iff, length, ◌>>=◌, arith, Bool-cases, inl, inr,
}
use helios_home.Prelude.Float.{Float}
use helios_home.Prelude.Sort.{IsSortedBy, sort_by-perm, sort_by-IsSortedBy}
use helios_home.Modbus.Codec.{Failure, SunSpecPoint, Value}
use helios_home.Modbus.Blocks.{SunSpecModelBlock}
use helios_home.Modbus.Points.{
  Dict, Entry, ChunkList, Open, close, advance, coalesce, encode_entry, sort_entries, write_chunks,
  entries, point_offsets,
}

-- The registers that a chunk sets, one by one.
abbrev pub cells_at : ℕ → List ℤ → List (ℕ × ℤ)
cells_at address [] = []
cells_at address (v ∷ vs) = (address, v) ∷ cells_at (address + 1) vs

abbrev pub cells_of : ChunkList → List (ℕ × ℤ)
cells_of [] = []
cells_of ((address, payload) ∷ rest) = cells_at address payload ++ cells_of rest

abbrev pub cells_open : Open → List (ℕ × ℤ)
cells_open none = []
cells_open (some (address, payload)) = cells_at address payload

cells_at-append :
    (a : ℕ) (vs ws : List ℤ) → cells_at a (vs ++ ws) ≡ cells_at a vs ++ cells_at (a + length vs) ws
cells_at-append a [] ws = let e : a + 0 ≡ a = omega arith in rw e
cells_at-append a (v ∷ vs) ws =
    let e : a + suc (length vs) ≡ a + 1 + length vs = omega arith in
    rw e (ap (λ l. (a, v) ∷ l) (cells_at-append (a + 1) vs ws))

cells_of-append : (cs ds : ChunkList) → cells_of (cs ++ ds) ≡ cells_of cs ++ cells_of ds
cells_of-append [] ds = refl
cells_of-append ((a, p) ∷ cs) ds =
    ap (λ l. cells_at a p ++ l) (cells_of-append cs ds)
    ∙ sym (append_assoc (cells_at a p) (cells_of cs) (cells_of ds))

cells_of-single :
    (a : ℕ) (p : List ℤ) (cs : ChunkList)
    → cells_of (cs ++ (a, p) ∷ []) ≡ cells_of cs ++ cells_at a p
cells_of-single a p cs =
    cells_of-append cs _ ∙ ap (λ l. cells_of cs ++ l) (append-nil (cells_at a p))

cells_of-close : (o : Open) (cs : ChunkList) → cells_of (close o cs) ≡ cells_of cs ++ cells_open o
cells_of-close none cs = sym (append-nil (cells_of cs))
cells_of-close (some (a, [])) cs = sym (append-nil (cells_of cs))
cells_of-close (some (a, v ∷ vs)) cs = cells_of-single a (v ∷ vs) cs

cells_of-advance :
    (address : ℕ) (encoded : List ℤ) (o : Open) (cs : ChunkList)
    → cells_of (advance address encoded o cs).1 ++ cells_open (advance address encoded o cs).0
      ≡ (cells_of cs ++ cells_open o) ++ cells_at address encoded
unfolding advance
cells_of-advance a vs none cs = rw append-nil
cells_of-advance a vs (some (start, p)) cs = elim (Bool-cases (a == start + length p)) [
  | inl follows ↦
      let e : a ≡ start + length p = (==_iff _ _).0 follows in
      rw follows (
        rw (cells_at-append start p vs)
          (rw e (sym (append_assoc (cells_of cs) (cells_at start p) _))))
  | inr apart ↦ rw apart (rw (cells_of-single start p cs))
]

abbrev pub cells_result : List (ℕ × ℤ) → Result Failure ChunkList → Result Failure (List (ℕ × ℤ))
cells_result pre (ok chunks) = ok (pre ++ cells_of chunks)
cells_result pre (err e) = err e

regroup :
    (pre : List (ℕ × ℤ)) (a : ℕ) (encoded : List ℤ) (r : Result Failure ChunkList)
    → cells_result (pre ++ cells_at a encoded) r
      ≡ cells_result pre (r >>= λ rest. ok ((a, encoded) ∷ rest))
regroup pre a encoded (ok rest) = ap ok (append_assoc pre _ (cells_of rest))
regroup pre a encoded (err f) = refl

module _ {W : Type 0} ⦃fl : Float W⦄ where
  -- One write for each point: its address and its encoded registers.
  pub encode_each : ℕ → Dict (Option (Value W)) → List (Entry W) → Result Failure ChunkList
  encode_each base current [] = ok []
  encode_each base current (e ∷ es) = do
    encoded ← encode_entry current e
    rest ← encode_each base current es
    ok ((base + e.offset, encoded) ∷ rest)

  coalesce-encode_each :
      (base : ℕ) (current : Dict (Option (Value W))) (es : List (Entry W)) (o : Open)
      (cs : ChunkList)
      → cells_result [] (coalesce base current es o cs)
        ≡ cells_result (cells_of cs ++ cells_open o) (encode_each base current es)
  unfolding coalesce encode_each
  coalesce-encode_each base current [] o cs = ap ok (cells_of-close o cs ∙ sym (append-nil _))
  coalesce-encode_each base current (e ∷ es) o cs =
      coalesce_step (encode_entry current e)
        (λ encoded. coalesce base current es (next encoded).0 (next encoded).1)
        (encode_each base current es)
        λ encoded.
          coalesce-encode_each base current es (next encoded).0 (next encoded).1
          ∙ ap (λ l. cells_result l (encode_each base current es))
              (cells_of-advance (base + e.offset) encoded o cs)
          ∙ regroup _ (base + e.offset) encoded (encode_each base current es)
    where
      next : List ℤ → Open × ChunkList
      next encoded = advance (base + e.offset) encoded o cs

      coalesce_step :
          (r : Result Failure (List ℤ)) (run : List ℤ → Result Failure ChunkList)
          (each : Result Failure ChunkList)
          → ((encoded : List ℤ)
              → cells_result [] (run encoded)
                ≡ cells_result
                    (cells_of cs ++ cells_open o)
                    (each >>= λ rest. ok ((base + e.offset, encoded) ∷ rest)))
          → cells_result [] (r >>= run)
            ≡ cells_result
                (cells_of cs ++ cells_open o)
                (r >>= λ encoded. each >>= λ rest. ok ((base + e.offset, encoded) ∷ rest))
      coalesce_step (ok encoded) run each h = h encoded
      coalesce_step (err f) run each h = refl

  -- The order of the writes: by increasing offset.
  abbrev pub IsSorted : List (Entry W) → Type 0
  IsSorted = IsSortedBy (λ e f. leb e.offset f.offset)

  sort_entries-perm : (es : List (Entry W)) → Perm (sort_entries es) es
  unfolding sort_entries
  sort_entries-perm es = sort_by-perm _ es

  sort_entries-IsSorted : (es : List (Entry W)) → IsSorted (sort_entries es)
  unfolding sort_entries
  sort_entries-IsSorted es =
      sort_by-IsSortedBy _ (λ e f g p q. ground arith) (λ e f p. ground arith) es

  -- What `write_sunspec_model_points` sends: the named points, each as often as it is named, by
  -- increasing offset. The registers that its chunks set, and their values, are those of one write
  -- for each point at its own address, in that order; and the chunks cannot be formed exactly where one
  -- of those encodings raises, with the same exception.
  pub write_chunks-encode_each :
      (block : SunSpecModelBlock) (points : List SunSpecPoint)
      (current values : Dict (Option (Value W))) (es : List (Entry W))
      → entries (point_offsets points) values ≡ ok es
      → (sorted : List (Entry W)) × Perm sorted es
        × IsSorted sorted
        × (cells_result [] (write_chunks block points current values)
            ≡ cells_result [] (encode_each block.start_register current sorted))
  unfolding write_chunks
  write_chunks-encode_each block points current values es h = (
    sort_entries es,
    sort_entries-perm es,
    sort_entries-IsSorted es,
    rw h (coalesce-encode_each block.start_register current (sort_entries es) none []),
  )
