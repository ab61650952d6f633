-- ===== src/Modbus/Transport.antt =====
-- services/modbus.py: one Modbus request over a connection, and the reads and writes made of requests.
-- The peer is a parameter; its state is passed on explicitly.
pub mod Stream
pub mod Response
pub mod Reply
use Prim.Native.Nat.{bit_and}
use helios_home.Prelude.{
  ℕ, zero, suc, ◌+◌, ◌-◌, ◌*◌, ◌/◌, ◌%◌, min, Bool, true, false, not, ◌&&◌, ◌||◌, Option, none,
  some, List, [], ◌∷◌, ◌++◌, map, ℤ, pos, negsuc, Result, ok, err, ltb, leb, ◌==◌, if◌then◌else◌,
  length, take, drop, ◌>>=◌,
}
use helios_home.Modbus.Codec.{Failure, modbus_source_error, struct_error, index_error, os_error}

-- What a `recv` meets: a piece of the stream, or an `OSError` such as a timeout. A list of these that
-- runs out is a peer that closed the connection, and so is an empty piece.
pub data Arrival : Type 0 where
  chunk : List ℕ → Arrival
  fault : Arrival

-- The other end. `connect` is `socket.create_connection`; `exchange` is `sendall` of a frame and what
-- arrives after it.
pub record Peer (S : Type 0) : Type 0 where
  pub connect : S → Result Failure (Unit {0})
  pub exchange : S → List ℕ → Result Failure (List Arrival) × S

-- An action on the peer.
abbrev pub Io : Type 0 → Type 0 → Type 0
Io S A = S → Result Failure A × S

-- `_recv_exact`: each piece is at most what is still wanted; the rest of a longer one stays.
prepend : List ℕ → Result Failure (List ℕ × List Arrival) → Result Failure (List ℕ × List Arrival)
prepend xs (ok (payload, rest)) = ok (xs ++ payload, rest)
prepend xs (err e) = err e

unfoldable pub recv_exact : ℕ → List Arrival → Result Failure (List ℕ × List Arrival)
unfolding prepend
recv_exact zero stream = ok ([], stream)
recv_exact (suc n) [] = err modbus_source_error
recv_exact (suc n) (fault ∷ rest) = err os_error
recv_exact (suc n) (chunk [] ∷ rest) = err modbus_source_error
recv_exact (suc n) (chunk (b ∷ bs) ∷ rest) =
    let more = prepend (b ∷ bs) (recv_exact (n - length bs) rest) in
    if leb (length bs) n then more else ok (take (suc n) (b ∷ bs), chunk (drop n bs) ∷ rest)

-- `struct.pack` of big-endian fields.
abbrev pub be_16 : ℕ → List ℕ
be_16 n = (n / 256) ∷ (n % 256) ∷ []

abbrev pub word : ℕ → ℕ → ℕ
word high low = high * 256 + low

unfoldable pub pack_16 : ℕ → Result Failure (List ℕ)
pack_16 n = if ltb n 65536 then ok (be_16 n) else err struct_error

pack_8 : ℕ → Result Failure (List ℕ)
pack_8 n = if ltb n 256 then ok (n ∷ []) else err struct_error

pub mbap : ℕ → ℕ → ℕ → Result Failure (List ℕ)
unfolding pack_16 pack_8
mbap transaction size unit = do
  t ← pack_16 transaction
  l ← pack_16 (size + 1)
  u ← pack_8 unit
  ok (t ++ 0 ∷ 0 ∷ l ++ u)

-- What `_send_modbus_request` makes of the payload and of the header of a response.
unfoldable pub checked_pdu : List ℕ → Result Failure (List ℕ)
checked_pdu [] = ok []
checked_pdu (function ∷ rest) =
    if bit_and function 0x80 == 0 then ok (function ∷ rest) else err modbus_source_error

response_pdu : ℕ → List ℕ → List Arrival → Result Failure (List ℕ)
unfolding recv_exact checked_pdu
response_pdu transaction (t1 ∷ t0 ∷ p1 ∷ p0 ∷ l1 ∷ l0 ∷ u ∷ []) stream =
    if (word t1 t0 == transaction) && (word p1 p0 == 0)
    then (do (pdu, rest) ← recv_exact (word l1 l0 - 1) stream; checked_pdu pdu)
    else err modbus_source_error
response_pdu transaction header stream = err struct_error

unfoldable pub read_response : ℕ → List Arrival → Result Failure (List ℕ)
unfolding recv_exact response_pdu
read_response transaction stream = do
  (header, rest) ← recv_exact 7 stream
  response_pdu transaction header rest

module _ {S : Type 0} (peer : Peer S) where
  received : ℕ → Result Failure (List Arrival) × S → Result Failure (List ℕ) × S
  unfolding read_response
  received transaction (ok stream, s) = (read_response transaction stream, s)
  received transaction (err e, s) = (err e, s)

  exchanged : ℕ → Result Failure (List ℕ) → List ℕ → Io S (List ℕ)
  unfolding received
  exchanged transaction (ok header) pdu s = received transaction (peer.exchange s (header ++ pdu))
  exchanged transaction (err e) pdu s = (err e, s)

  connected : Result Failure (Unit {0}) → ℕ → List ℕ → ℕ → Io S (List ℕ)
  unfolding exchanged mbap
  connected (ok _) unit pdu transaction s =
      exchanged transaction (mbap transaction (length pdu) unit) pdu s
  connected (err e) unit pdu transaction s = (err e, s)

  unfoldable pub send_modbus_request : ℕ → List ℕ → ℕ → Io S (List ℕ)
  unfolding connected
  send_modbus_request unit pdu transaction s = connected (peer.connect s) unit pdu transaction s
