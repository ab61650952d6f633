-- ===== src/Modbus/Transport/Reply.antt =====
-- What `_send_modbus_request` makes of the bytes that a peer sends back, wherever its pieces end.
use Prim.Native.Nat.{bit_and}
use helios_home.Prelude.{
  ℕ, ◌+◌, ◌-◌, ◌≤◌, ◌<◌, ◌≡◌, ◌∙◌, refl, false, not, ◌&&◌, List, [], ◌∷◌, arith, Result, ok, err,
  length, take, drop, ltb, ◌==◌, if◌then◌else◌, Bool-cases, inl, inr, ap,
}
use helios_home.Modbus.Codec.{Failure, modbus_source_error, struct_error}
use helios_home.Modbus.Transport.{
  Arrival, Peer, received, connected, exchanged, word, checked_pdu, response_pdu, read_response,
  send_modbus_request, mbap,
}
use helios_home.Modbus.Transport.Stream.{IsSound, content, recv_exact_lem, recv_exact_short}
use helios_home.Modbus.Transport.Response.{frame, header_of, mbap_lem}

-- The payload of a response: the top bit of its function code reports an exception.
abbrev pub payload_of : List ℕ → Result Failure (List ℕ)
payload_of [] = ok []
payload_of (code ∷ rest) =
    if not (bit_and code 128 == 0) then err modbus_source_error else ok (code ∷ rest)

-- The response in the bytes of a whole reply: a header with the transaction of the request, the
-- protocol 0 and a length, and behind the unit as many bytes as the length says without the unit.
abbrev pub reply_in : ℕ → List ℕ → Result Failure (List ℕ)
reply_in transaction (t1 ∷ t0 ∷ p1 ∷ p0 ∷ l1 ∷ l0 ∷ unit ∷ body) =
    if not ((word t1 t0 == transaction) && (word p1 p0 == 0))
    then err modbus_source_error
    else if ltb (length body) (word l1 l0 - 1)
    then err modbus_source_error
    else payload_of (take (word l1 l0 - 1) body)
reply_in transaction _ = err modbus_source_error

checked_pdu-payload_of : (pdu : List ℕ) → checked_pdu pdu ≡ payload_of pdu
unfolding checked_pdu
checked_pdu-payload_of [] = refl
checked_pdu-payload_of (code ∷ rest) = elim (Bool-cases (bit_and code 128 == 0)) [
  | inl plain ↦ rw plain refl
  | inr exception ↦ rw exception refl
]

response_pdu-reply_in :
    (transaction : ℕ) (bytes : List ℕ) (rest : List Arrival)
    → 7 ≤ length bytes
    → IsSound rest
    → content rest ≡ drop 7 bytes
    → response_pdu transaction (take 7 bytes) rest ≡ reply_in transaction bytes
unfolding response_pdu
response_pdu-reply_in t (t1 ∷ t0 ∷ p1 ∷ p0 ∷ l1 ∷ l0 ∷ u ∷ body) rest h sound e =
    let n = word l1 l0 - 1 in
    elim (Bool-cases ((word t1 t0 == t) && (word p1 p0 == 0))) [
      | inr other ↦ rw other refl
      | inl same ↦ elim (Bool-cases (ltb (length body) n)) [
        | inl short ↦
            rw same
              (rw short (rw (recv_exact_short n rest sound (rw e (ground (arith, short)))) refl))
        | inr enough ↦
            let (rest', got, s, c) = recv_exact_lem n rest sound (rw e (ground (arith, enough))) in
            rw same (
              rw enough (
                rw got (
                  checked_pdu-payload_of (take n (content rest))
                  ∙ ap (λ l. payload_of (take n l)) e)))
      ]
    ]
response_pdu-reply_in t [] rest h sound e = absurd (omega arith)
response_pdu-reply_in t (a ∷ []) rest h sound e = absurd (omega arith)
response_pdu-reply_in t (a ∷ b ∷ []) rest h sound e = absurd (omega arith)
response_pdu-reply_in t (a ∷ b ∷ c ∷ []) rest h sound e = absurd (omega arith)
response_pdu-reply_in t (a ∷ b ∷ c ∷ d ∷ []) rest h sound e = absurd (omega arith)
response_pdu-reply_in t (a ∷ b ∷ c ∷ d ∷ f ∷ []) rest h sound e = absurd (omega arith)
response_pdu-reply_in t (a ∷ b ∷ c ∷ d ∷ f ∷ g ∷ []) rest h sound e = absurd (omega arith)

short_reply :
    (t : ℕ) (bytes : List ℕ) → length bytes < 7 → reply_in t bytes ≡ err modbus_source_error
short_reply t [] h = refl
short_reply t (a ∷ []) h = refl
short_reply t (a ∷ b ∷ []) h = refl
short_reply t (a ∷ b ∷ c ∷ []) h = refl
short_reply t (a ∷ b ∷ c ∷ d ∷ []) h = refl
short_reply t (a ∷ b ∷ c ∷ d ∷ f ∷ []) h = refl
short_reply t (a ∷ b ∷ c ∷ d ∷ f ∷ g ∷ []) h = refl
short_reply t (a ∷ b ∷ c ∷ d ∷ f ∷ g ∷ u ∷ body) h = absurd (omega arith)

read_response-reply_in :
    (transaction : ℕ) (stream : List Arrival)
    → IsSound stream
    → read_response transaction stream ≡ reply_in transaction (content stream)
unfolding read_response
read_response-reply_in t stream sound = elim (Bool-cases (ltb (length (content stream)) 7)) [
  | inl short ↦
      let few : length (content stream) < 7 = ground (arith, short) in
      rw (recv_exact_short 7 stream sound few, short_reply t (content stream) few) refl
  | inr enough ↦
      let many : 7 ≤ length (content stream) = ground (arith, enough) in
      let (rest, got, s, c) = recv_exact_lem 7 stream sound many in
      rw got (response_pdu-reply_in t (content stream) rest many s c)
]

mbap_unfit :
    (t n u : ℕ)
    → (ltb t 65536 && (ltb (n + 1) 65536 && ltb u 256)) ≡ false
    → mbap t n u ≡ err struct_error
unfolding mbap
mbap_unfit t n u h = ground (arith, h)

-- What arrives after a request, where anything does, is pieces with no timeout between them.
abbrev pub IsWhole : {S : Type 0} → Result Failure (List Arrival) × S → Type 0
IsWhole (ok stream, s) = IsSound stream
IsWhole (err e, s) = Unit

module _ {S : Type 0} where
  abbrev pub delivered : ℕ → Result Failure (List Arrival) × S → Result Failure (List ℕ) × S
  delivered transaction (ok stream, s) = (reply_in transaction (content stream), s)
  delivered transaction (err e, s) = (err e, s)

  -- A request as a whole: the peer is connected to, the fields of the frame must fit, and the reply to
  -- the frame is read as bytes.
  abbrev pub transacted :
      Result Failure (Unit {0})
      → Peer S
      → (unit : ℕ) (pdu : List ℕ) (transaction : ℕ) (s : S) → Result Failure (List ℕ) × S
  transacted (err e) peer unit pdu transaction s = (err e, s)
  transacted (ok _) peer unit pdu transaction s =
      if ltb transaction 65536 && (ltb (length pdu + 1) 65536 && ltb unit 256)
      then delivered transaction (peer.exchange s (frame transaction unit pdu))
      else (err struct_error, s)

  received-delivered :
      (peer : Peer S) (transaction : ℕ) (answer : Result Failure (List Arrival) × S)
      → IsWhole answer
      → received peer transaction answer ≡ delivered transaction answer
  unfolding received
  received-delivered peer t (ok stream, s) whole =
      ap (λ r. (r, s)) (read_response-reply_in t stream whole)
  received-delivered peer t (err e, s) whole = refl

  connected-transacted :
      (peer : Peer S) (unit : ℕ) (pdu : List ℕ) (transaction : ℕ) (s : S)
      (connection : Result Failure (Unit {0}))
      → IsWhole (peer.exchange s (frame transaction unit pdu))
      → connected peer connection unit pdu transaction s
        ≡ transacted connection peer unit pdu transaction s
  unfolding connected exchanged
  connected-transacted peer u pdu t s (err e) whole = refl
  connected-transacted peer u pdu t s (ok x) whole =
      elim (Bool-cases (ltb t 65536 && (ltb (length pdu + 1) 65536 && ltb u 256))) [
        | inl fit ↦
            let head : mbap t (length pdu) u ≡ ok (header_of t u (length pdu)) =
              mbap_lem t (length pdu) u (ground (arith, fit)) (ground (arith, fit))
                (ground (arith, fit)) in
            rw fit (rw head (received-delivered peer t (peer.exchange s (frame t u pdu)) whole))
        | inr unfit ↦ rw unfit (rw (mbap_unfit t (length pdu) u unfit) refl)
      ]

  -- Where what arrives has no timeout within it, however it is cut into pieces, a request does on every
  -- branch what reading the whole reply as bytes does: a peer that does not connect or fails to answer
  -- gives its error and fields that do not fit give a struct.error; a reply that is too short, answers
  -- another transaction or protocol, or reports an exception gives a ModbusSourceError; and any other
  -- reply gives the payload that its length covers.
  pub send_modbus_request-transacted :
      (peer : Peer S) (unit : ℕ) (pdu : List ℕ) (transaction : ℕ) (s : S)
      → IsWhole (peer.exchange s (frame transaction unit pdu))
      → send_modbus_request peer unit pdu transaction s
        ≡ transacted (peer.connect s) peer unit pdu transaction s
  unfolding send_modbus_request
  send_modbus_request-transacted peer unit pdu transaction s whole =
      connected-transacted peer unit pdu transaction s (peer.connect s) whole
