-- ===== src/Modbus/Transport/Stream.antt =====
-- `_recv_exact` against the bytes that the peer sends, however they are cut into pieces.
use helios_home.Prelude.{
  ℕ, zero, suc, ◌-◌, ◌≤◌, ◌<◌, ◌≡◌, refl, List, [], ◌∷◌, ◌++◌, arith, ok, err, length, take, drop,
  take-append_le, drop-append_le, take-append_ge, drop-append_ge, length-append, length-drop, leb,
  inl, inr, Bool-cases, leb→le, sym, ◌∙◌,
}
use helios_home.Modbus.Codec.{modbus_source_error}
use helios_home.Modbus.Transport.{Arrival, chunk, fault, recv_exact}

-- Every piece is there, and none is empty: the peer closes only after the last byte.
abbrev pub IsSound : List Arrival → Type 0
IsSound [] = Unit
IsSound (fault ∷ rest) = ⊥
IsSound (chunk bs ∷ rest) = (0 < length bs) × IsSound rest

abbrev pub content : List Arrival → List ℕ
content [] = []
content (fault ∷ rest) = []
content (chunk bs ∷ rest) = bs ++ content rest

-- Where no piece is missing or empty and `n` bytes are there, the first `n` bytes are returned and the rest of the stream stays, wherever the pieces end.
pub recv_exact_lem :
    (n : ℕ) (stream : List Arrival)
    → IsSound stream
    → n ≤ length (content stream)
    → (rest : List Arrival) × (recv_exact n stream ≡ ok (take n (content stream), rest))
      × IsSound rest
      × (content rest ≡ drop n (content stream))
unfolding recv_exact
recv_exact_lem zero stream sound h = (stream, refl, sound, refl)
recv_exact_lem (suc n) [] sound h = absurd (omega arith)
recv_exact_lem (suc n) (fault ∷ rest) sound h = absurd sound
recv_exact_lem (suc n) (chunk [] ∷ rest) sound h = absurd (omega arith)
recv_exact_lem (suc n) (chunk (b ∷ bs) ∷ rest) sound h = elim (Bool-cases (leb (length bs) n)) [
  | inl short ↦
      let le : length bs ≤ n = leb→le (length bs) n short in
      let (rest', e, s, c) =
        recv_exact_lem (n - length bs) rest sound.1
          (omega (arith, length-append bs (content rest))) in
      (
        rest',
        rw short (rw e (rw (take-append_le n bs (content rest) le))),
        s,
        c ∙ sym (drop-append_le n bs (content rest) le),
      )
  | inr long ↦
      let le : n ≤ length bs = ground arith in
      (
        chunk (drop n bs) ∷ rest,
        rw long (rw (take-append_ge n bs (content rest) le)),
        (ground (arith, length-drop n bs), sound.1),
        sym (drop-append_ge n bs (content rest) le),
      )
]

-- Where fewer bytes are there, the connection counts as closed too early.
pub recv_exact_short :
    (n : ℕ) (stream : List Arrival)
    → IsSound stream
    → length (content stream) < n
    → recv_exact n stream ≡ err modbus_source_error
unfolding recv_exact
recv_exact_short zero stream sound h = absurd (omega arith)
recv_exact_short (suc n) [] sound h = refl
recv_exact_short (suc n) (fault ∷ rest) sound h = absurd sound
recv_exact_short (suc n) (chunk [] ∷ rest) sound h = absurd (omega arith)
recv_exact_short (suc n) (chunk (b ∷ bs) ∷ rest) sound h =
    let missing : length (content rest) < n - length bs =
      omega (arith, length-append bs (content rest)) in
    elim (Bool-cases (leb (length bs) n)) [
      | inl short ↦ rw short (rw (recv_exact_short (n - length bs) rest sound.1 missing) refl)
      | inr long ↦ absurd (ground (arith, missing, long))
    ]
