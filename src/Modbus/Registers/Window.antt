-- ===== src/Modbus/Registers/Window.antt =====
-- Reads and writes of holding registers against a peer that serves them, and the length of what any
-- peer makes them return.
use mathlib.Core.List.{append_assoc, append-nil}
use helios_home.Prelude.{
  ℕ, zero, suc, ◌+◌, ◌-◌, ◌*◌, ◌/◌, ◌%◌, ◌≤◌, ◌<◌, ◌≡◌, refl, List, [], ◌∷◌, ◌++◌, arith, Result,
  ok, err, length, take, ap, ◌∙◌, ◌==◌, ==_iff, true, Option, some, none, min, length-append, ltb,
  Bool-cases, inl, inr, ℤ,
}
use helios_home.Modbus.Codec.{Failure}
use helios_home.Modbus.Transport.{Arrival, Peer, read_response, checked_pdu, send_modbus_request}
use helios_home.Modbus.Transport.Stream.{IsSound, content}
use helios_home.Modbus.Transport.Response.{
  frame, read_response-frame, send_modbus_request-frame, take-length, word_bytes, eq_self,
}
use helios_home.Modbus.Registers.{
  modbus_max_read_count, registers_of, holding_registers, read_request, bytes_of,
  read_holding_registers, extend, window_loop, read_register_window, write_multiple_registers,
  all_masked, write_request, acknowledged,
}

-- The `count` registers from `address` on.
abbrev pub cells : (ℕ → ℕ) → ℕ → ℕ → List ℕ
cells cell address zero = []
cells cell address (suc count) = cell address ∷ cells cell (address + 1) count

length-cells : (cell : ℕ → ℕ) (a c : ℕ) → length (cells cell a c) ≡ c
length-cells cell a zero = refl
length-cells cell a (suc c) = ap suc (length-cells cell (a + 1) c)

cells-append :
    (cell : ℕ → ℕ) (a c d : ℕ) → cells cell a c ++ cells cell (a + c) d ≡ cells cell a (c + d)
cells-append cell a zero d =
    let e : a + 0 ≡ a = omega arith in let f : 0 + d ≡ d = omega arith in rw (e, f)
cells-append cell a (suc c) d =
    let e : a + suc c ≡ a + 1 + c = omega arith in
    let f : suc c + d ≡ suc (c + d) = omega arith in
    rw (e, f) (ap (λ l. cell a ∷ l) (cells-append cell (a + 1) c d))

length-bytes_of : (rs : List ℕ) → length (bytes_of rs) ≡ length rs * 2
length-bytes_of [] = omega arith
length-bytes_of (r ∷ rs) = omega (arith, length-bytes_of rs)

registers_of-bytes : (rs : List ℕ) → registers_of (bytes_of rs) ≡ some rs
unfolding registers_of
registers_of-bytes [] = refl
registers_of-bytes (r ∷ rs) = rw (registers_of-bytes rs) (rw word_bytes)

abbrev pub read_answer : List ℕ → List ℕ
read_answer rs = 3 ∷ length rs * 2 ∷ bytes_of rs

holding_registers-answer : (rs : List ℕ) → holding_registers (read_answer rs) ≡ some rs
unfolding holding_registers
holding_registers-answer rs =
    let all : take (length rs * 2) (bytes_of rs) ≡ bytes_of rs =
      rw (← length-bytes_of rs) (take-length (bytes_of rs)) in
    rw all (registers_of-bytes rs)

-- What the Modbus protocol says of a server: a read of at most 125 registers in its address space is
-- answered with their values and changes nothing. `cell s a` is the register at `a`.
pub record Serves {S : Type 0} (peer : Peer S) (unit : ℕ) (cell : S → ℕ → ℕ) : Type 0 where
  pub connects : (s : S) → peer.connect s ≡ ok tt
  pub reads :
      (s : S) (transaction a c : ℕ)
      → transaction < 65536
      → a + c ≤ 65536
      → 0 < c
      → c ≤ 125
      → (stream : List Arrival) × (peer.exchange s
            (frame transaction unit (3 ∷ (a / 256) ∷ (a % 256) ∷ (c / 256) ∷ (c % 256) ∷ []))
          ≡ (ok stream, s))
        × IsSound stream
        × (content stream ≡ frame transaction unit (read_answer (cells (cell s) a c)))

checked_pdu-answer : (rs : List ℕ) → checked_pdu (read_answer rs) ≡ ok (read_answer rs)
unfolding checked_pdu
checked_pdu-answer rs = refl

module _ {S : Type 0} (peer : Peer S) (unit : ℕ) (cell : S → ℕ → ℕ) (fits : unit < 256)
    (serves : Serves peer unit cell) where
  read_request_lem :
      (a c : ℕ)
      → a < 65536
      → c < 65536
      → read_request a c ≡ ok (3 ∷ (a / 256) ∷ (a % 256) ∷ (c / 256) ∷ (c % 256) ∷ [])
  unfolding read_request
  read_request_lem a c ha hc = ground arith

  read_holding_registers-serves :
      (a c : ℕ) (s : S)
      → a + c ≤ 65536
      → 0 < c
      → c ≤ 125
      → read_holding_registers peer unit a c s ≡ (ok (some (cells (cell s) a c)), s)
  unfolding read_holding_registers
  read_holding_registers-serves a c s h pos_c le =
      let t = 2 + a % 1000 in
      let (stream, ex, sound, e) = serves.reads s t a c (omega arith) h pos_c le in
      let sent : send_modbus_request peer unit
            (3 ∷ (a / 256) ∷ (a % 256) ∷ (c / 256) ∷ (c % 256) ∷ []) t s
          ≡ (read_response t stream, s) =
        send_modbus_request-frame peer unit t _ s s stream fits (omega arith) (omega arith)
          (serves.connects s) ex in
      let cs = cells (cell s) a c in
      let answer : read_response t stream ≡ ok (read_answer cs) =
        read_response-frame t unit (read_answer cs) stream sound e ∙ checked_pdu-answer cs in
      rw (read_request_lem a c (omega arith) (omega arith))
        (rw sent (rw answer (rw holding_registers-answer)))

  window_loop-serves :
      (fuel : ℕ) (registers : List ℕ) (a c : ℕ) (s : S)
      → c ≤ fuel
      → a + c ≤ 65536
      → window_loop peer unit fuel registers a c s
        ≡ (ok (some (registers ++ cells (cell s) a c)), s)
  unfolding window_loop
  window_loop-serves zero registers a zero s le h = rw append-nil
  window_loop-serves zero registers a (suc c) s le h = absurd (omega arith)
  window_loop-serves (suc fuel) registers a zero s le h = rw append-nil
  window_loop-serves (suc fuel) registers a (suc c) s le h =
      let n = min (suc c) modbus_max_read_count in
      let read : read_holding_registers peer unit a n s ≡ (ok (some (cells (cell s) a n)), s) =
        read_holding_registers-serves a n s (omega arith) (omega arith) (omega arith) in
      let rest =
        window_loop-serves fuel (registers ++ cells (cell s) a n) (a + n) (suc c - n) s
          (omega arith) (omega arith) in
      let total : n + (suc c - n) ≡ suc c = omega arith in
      let joined : (registers ++ cells (cell s) a n) ++ cells (cell s) (a + n) (suc c - n)
          ≡ registers ++ cells (cell s) a (suc c) =
        append_assoc registers (cells (cell s) a n) _
        ∙ ap (λ l. registers ++ l)
            (cells-append (cell s) a n (suc c - n) ∙ ap (λ k. cells (cell s) a k) total) in
      let more : ltb 0 (suc c) ≡ true = ground arith in
      rw read (rw length-cells (rw (more, eq_self n) (rest ∙ ap (λ l. (ok (some l), s)) joined)))

  -- Against a peer that serves a register space, a window of any size that lies in the space is read
  -- whole and in order, whatever number of requests it takes.
  pub read_register_window-serves :
      (address count : ℕ) (s : S)
      → address + count ≤ 65536
      → read_register_window peer unit address count s
        ≡ (ok (some (cells (cell s) address count)), s)
  unfolding read_register_window
  read_register_window-serves a c s h = window_loop-serves c [] a c s (omega arith) h

-- A peer that takes writes: the registers are stored, and acknowledged with their address and count.
pub record Stores {S : Type 0} (peer : Peer S) (unit : ℕ) (store : S → ℕ → List ℕ → S)
    : Type 0 where
  pub connects : (s : S) → peer.connect s ≡ ok tt
  pub writes :
      (s : S) (transaction a : ℕ) (rs : List ℕ)
      → transaction < 65536
      → a + length rs ≤ 65536
      → 0 < length rs
      → length rs ≤ 123
      → (stream : List Arrival) × (peer.exchange s (
            frame transaction unit (
              0x10
              ∷ (a / 256)
              ∷ (a % 256)
              ∷ (length rs / 256)
              ∷ (length rs % 256)
              ∷ (length rs * 2)
              ∷ bytes_of rs))
          ≡ (ok stream, store s a rs))
        × IsSound stream
        × (content stream
            ≡ frame transaction unit
                (0x10 ∷ (a / 256) ∷ (a % 256) ∷ (length rs / 256) ∷ (length rs % 256) ∷ []))

length-all_masked : (vs : List ℤ) → length (all_masked vs) ≡ length vs
length-all_masked [] = refl
length-all_masked (v ∷ vs) = ap suc (length-all_masked vs)

module _ {S : Type 0} (peer : Peer S) (unit : ℕ) (store : S → ℕ → List ℕ → S) (fits : unit < 256)
    (stores : Stores peer unit store) where
  write_request_lem :
      (a : ℕ) (rs : List ℕ)
      → a < 65536
      → length rs ≤ 123
      → write_request a rs
        ≡ ok (
            0x10
            ∷ (a / 256)
            ∷ (a % 256)
            ∷ (length rs / 256)
            ∷ (length rs % 256)
            ∷ (length rs * 2)
            ∷ bytes_of rs)
  unfolding write_request
  write_request_lem a rs ha hr = ground arith

  acknowledged_lem :
      (a n : ℕ)
      → acknowledged a n (0x10 ∷ (a / 256) ∷ (a % 256) ∷ (n / 256) ∷ (n % 256) ∷ []) ≡ true
  unfolding acknowledged
  acknowledged_lem a n = rw (word_bytes a, word_bytes n, eq_self a, eq_self n)

  checked_pdu-ack : (xs : List ℕ) → checked_pdu (0x10 ∷ xs) ≡ ok (0x10 ∷ xs)
  unfolding checked_pdu
  checked_pdu-ack xs = refl

  -- Against a peer that takes writes, from 1 to 123 values are stored as their low 16 bits, from the
  -- address on, and the write reports success.
  pub write_multiple_registers-stores :
      (address : ℕ) (v : ℤ) (vs : List ℤ) (s : S)
      → address + length (v ∷ vs) ≤ 65536
      → length (v ∷ vs) ≤ 123
      → write_multiple_registers peer unit address (v ∷ vs) s
        ≡ (ok true, store s address (all_masked (v ∷ vs)))
  unfolding write_multiple_registers
  write_multiple_registers-stores a v vs s h le =
      let rs = all_masked (v ∷ vs) in
      let n : length rs ≡ length (v ∷ vs) = length-all_masked (v ∷ vs) in
      let t = 4000 + a % 1000 in
      let (stream, ex, sound, e) =
        stores.writes s t a rs (omega arith) (omega arith) (omega arith) (omega arith) in
      let size : length (
            0x10
            ∷ (a / 256)
            ∷ (a % 256)
            ∷ (length rs / 256)
            ∷ (length rs % 256)
            ∷ (length rs * 2)
            ∷ bytes_of rs)
          < 65535 =
        omega (arith, length-bytes_of rs) in
      let sent : send_modbus_request peer unit
            (0x10
              ∷ (a / 256)
              ∷ (a % 256)
              ∷ (length rs / 256)
              ∷ (length rs % 256)
              ∷ (length rs * 2)
              ∷ bytes_of rs)
            t s
          ≡ (read_response t stream, store s a rs) =
        send_modbus_request-frame peer unit t _ s (store s a rs) stream fits (omega arith) size
          (stores.connects s) ex in
      let answer : read_response t stream
          ≡ ok (0x10 ∷ (a / 256) ∷ (a % 256) ∷ (length rs / 256) ∷ (length rs % 256) ∷ []) =
        read_response-frame t unit _ stream sound e ∙ checked_pdu-ack _ in
      rw (write_request_lem a rs (omega arith) (omega arith))
        (rw sent (rw answer (rw (acknowledged_lem a (length rs)))))

module _ {S : Type 0} (peer : Peer S) (unit : ℕ) where
  extend-eq-some :
      (size : ℕ) (r : Result Failure (Option (List ℕ)) × S)
      (k : List ℕ → S → Result Failure (Option (List ℕ)) × S) (rs : List ℕ) (s' : S)
      → extend peer unit size r k ≡ (ok (some rs), s')
      → (chunk : List ℕ) × (s : S) × (length chunk ≡ size) × (k chunk s ≡ (ok (some rs), s'))
  unfolding extend
  extend-eq-some size (err e, s) k rs s' h = absurd (cc h)
  extend-eq-some size (ok none, s) k rs s' h = absurd (cc h)
  extend-eq-some size (ok (some chunk), s) k rs s' h = elim (Bool-cases (length chunk == size)) [
    | inl same ↦ (chunk, s, (==_iff _ size).0 same, rw same at h)
    | inr other ↦ absurd (cc (other, h))
  ]

  length-window_loop :
      (fuel : ℕ) (registers : List ℕ) (a c : ℕ) (s s' : S) (rs : List ℕ)
      → c ≤ fuel
      → window_loop peer unit fuel registers a c s ≡ (ok (some rs), s')
      → length rs ≡ length registers + c
  unfolding window_loop
  length-window_loop zero registers a zero s s' rs le h = ground arith
  length-window_loop zero registers a (suc c) s s' rs le h = absurd (omega arith)
  length-window_loop (suc fuel) registers a zero s s' rs le h = ground arith
  length-window_loop (suc fuel) registers a (suc c) s s' rs le h =
      let more : ltb 0 (suc c) ≡ true = ground arith in
      let n = min (suc c) modbus_max_read_count in
      let (chunk, s'', size, next) = extend-eq-some n _ _ rs s' (rw more at h) in
      omega (
        arith,
        length-append registers chunk,
        length-window_loop fuel (registers ++ chunk) (a + n) (suc c - n) s'' s' rs (omega arith)
            next,
      )

  -- Whatever the peer answers, registers that are returned are as many as were asked for.
  pub length-read_register_window :
      (address count : ℕ) (s s' : S) (rs : List ℕ)
      → read_register_window peer unit address count s ≡ (ok (some rs), s')
      → length rs ≡ count
  unfolding read_register_window
  length-read_register_window a c s s' rs h =
      omega (arith, length-window_loop c [] a c s s' rs (omega arith) h)
