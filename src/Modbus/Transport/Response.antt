-- ===== src/Modbus/Transport/Response.antt =====
-- What `_send_modbus_request` returns when the peer answers with a well-formed frame.
use helios_home.Prelude.{
  ℕ, ◌+◌, ◌-◌, ◌/◌, ◌%◌, ◌<◌, ◌≡◌, refl, List, [], ◌∷◌, arith, ok, length, take, drop, ap, ◌∙◌,
  ◌==◌, true,
}
use helios_home.Modbus.Transport.{
  Arrival, Peer, word, recv_exact, read_response, checked_pdu, response_pdu, send_modbus_request,
  mbap,
}
use helios_home.Modbus.Transport.Stream.{IsSound, content, recv_exact_lem}

-- The frame of a response, and that of a request: the MBAP header and the payload.
abbrev pub frame : ℕ → ℕ → List ℕ → List ℕ
frame transaction unit pdu =
    (transaction / 256)
    ∷ (transaction % 256)
    ∷ 0
    ∷ 0
    ∷ (length pdu + 1) / 256
    ∷ (length pdu + 1) % 256
    ∷ unit
    ∷ pdu

pub word_bytes : (n : ℕ) → word (n / 256) (n % 256) ≡ n
word_bytes n = omega arith

pub eq_self : (n : ℕ) → (n == n) ≡ true
eq_self n = ground arith

pub take-length {ℓ} : {A : Type ℓ} (xs : List A) → take (length xs) xs ≡ xs
take-length [] = refl
take-length (x ∷ xs) = ap (λ l. x ∷ l) (take-length xs)

abbrev pub header_of : ℕ → ℕ → ℕ → List ℕ
header_of transaction unit size =
    (transaction / 256)
    ∷ (transaction % 256)
    ∷ 0
    ∷ 0
    ∷ (size + 1) / 256
    ∷ (size + 1) % 256
    ∷ unit
    ∷ []

response_pdu-frame :
    (transaction unit : ℕ) (pdu : List ℕ) (rest : List Arrival)
    → IsSound rest
    → content rest ≡ pdu
    → response_pdu transaction (header_of transaction unit (length pdu)) rest ≡ checked_pdu pdu
unfolding response_pdu
response_pdu-frame t u pdu rest sound e =
    let (rest', got, s, c) = recv_exact_lem (length pdu) rest sound (rw e (omega arith)) in
    let body : recv_exact (length pdu) rest ≡ ok (pdu, rest') =
      got
      ∙ ap (λ l. ok (take (length pdu) l, rest')) e
      ∙ ap (λ l. ok (l, rest')) (take-length pdu) in
    let size : word ((length pdu + 1) / 256) ((length pdu + 1) % 256) - 1 ≡ length pdu =
      omega arith in
    rw (word_bytes t, eq_self t, size, body)

pub mbap_lem :
    (transaction size unit : ℕ)
    → transaction < 65536
    → size < 65535
    → unit < 256
    → mbap transaction size unit ≡ ok (header_of transaction unit size)
unfolding mbap
mbap_lem t n u ht hn hu = ground arith

-- With no fault, a response that carries the request's transaction is its payload, unless the payload
-- reports an exception.
pub read_response-frame :
    (transaction unit : ℕ) (pdu : List ℕ) (stream : List Arrival)
    → IsSound stream
    → content stream ≡ frame transaction unit pdu
    → read_response transaction stream ≡ checked_pdu pdu
unfolding read_response
read_response-frame t u pdu stream sound e =
    let (rest, got, s, c) = recv_exact_lem 7 stream sound (rw e (omega arith)) in
    let header : recv_exact 7 stream ≡ ok (header_of t u (length pdu), rest) =
      got ∙ ap (λ l. ok (take 7 l, rest)) e in
    rw header (response_pdu-frame t u pdu rest s (c ∙ ap (drop 7) e))

-- A request whose fields fit reaches a peer that connects as one frame.
pub send_modbus_request-frame :
    {S : Type 0} (peer : Peer S) (unit transaction : ℕ) (pdu : List ℕ) (s s' : S)
    (stream : List Arrival)
    → unit < 256
    → transaction < 65536
    → length pdu < 65535
    → peer.connect s ≡ ok tt
    → peer.exchange s (frame transaction unit pdu) ≡ (ok stream, s')
    → send_modbus_request peer unit pdu transaction s ≡ (read_response transaction stream, s')
unfolding send_modbus_request
send_modbus_request-frame peer u t pdu s s' stream hu ht hp conn ex =
    let head : mbap t (length pdu) u ≡ ok (header_of t u (length pdu)) =
      mbap_lem t (length pdu) u ht hp hu in
    rw conn (rw head (rw ex))
