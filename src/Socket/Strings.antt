-- ===== src/Socket/Strings.antt =====
-- socket/strings.h and socket/strings.cc. A string is its bytes; a socket that goes out of scope is
-- closed. The loops take fuel, one unit for each round; `none` means that it ran out.
use mathlib.Core.Option
use mtl.Base.{
  Bool-cases, inl, inr, take_all, ℕ, zero, suc, ◌+◌, ◌*◌, ◌<◌, ◌≤◌, ◌≡◌, refl, ◌∙◌, ap, Bool, true,
  Option, none, some, List, [], ◌++◌, append_assoc, length, take, drop, take-append-drop,
  length-drop, ltb, ◌==◌, if◌then◌else◌, arith, Outcome, returns, check, ◌>>◌,
}
use mtl.Magenta.{is_ok, is_should_wait, is_peer_closed}
use mtl.Socket.Stream.{Socket, IsReader, IsWriter, puts, waits}
use mtl.Socket.BlockingDrain.{blocking_drain_from, TakesAll, drains_all}

module _ {S : Type 0} (socket : Socket S) where
  -- result->append(buffer, num_bytes); return num_bytes;
  append_bytes : List ℕ → List ℕ → ℕ × List ℕ
  append_bytes bytes result = (length bytes, result ++ bytes)

  -- The Boolean that is returned, and the string.
  pub blocking_copy_to_string : ℕ → S → List ℕ → Option (Bool × List ℕ)
  unfolding append_bytes
  blocking_copy_to_string fuel source result =
      blocking_drain_from socket append_bytes fuel source []

  -- BlockingCopyToString clears the string and fills it with the bytes of the stream.
  pub copies_to_string :
      (reader : IsReader socket) (fuel : ℕ) (source : S) (result : List ℕ)
      → length (reader.content source) + reader.pending source < fuel
      → blocking_copy_to_string fuel source result ≡ some (true, reader.content source)
  unfolding blocking_copy_to_string
  copies_to_string reader fuel source result enough =
      let (b, e, t) = drains_all socket append_bytes (λ b. b) reader all fuel source [] enough in
      rw e (ap (λ (b : List ℕ). some (true, b)) t)
    where
      all : TakesAll socket append_bytes (λ b. b)
      all = record { takes = λ bytes b. omega arith; taken-write_bytes = λ bytes b. refl }

  -- The Boolean that is returned, and the socket.
  unfoldable pub blocking_copy_from_string : ℕ → List ℕ → S → Option (Bool × S)
  blocking_copy_from_string zero source destination = none
  blocking_copy_from_string (suc fuel) source destination =
      let w = socket.write source destination in
      let on_written = blocking_copy_from_string fuel (drop w.written source) w.next in
      let ready = socket.wait_writable w.next in
      let on_ready = blocking_copy_from_string fuel source ready.next in
      if is_ok w.status
      then (if w.written == length source then some (true, w.next) else on_written)
      else if is_should_wait w.status
      then (if is_ok ready.status then on_ready else some (is_peer_closed ready.status, ready.next))
      else some (is_peer_closed w.status, w.next)

  -- BlockingCopyFromString returns true, and the socket has accepted the whole string, in order.
  pub copies_from_string :
      (writer : IsWriter socket) (fuel : ℕ) (source : List ℕ) (destination : S)
      → length source + writer.pending destination < fuel
      → (s : S) × (blocking_copy_from_string fuel source destination ≡ some (true, s))
        × (writer.accepted s ≡ writer.accepted destination ++ source)
  unfolding blocking_copy_from_string
  copies_from_string writer zero source destination h = absurd (omega arith)
  copies_from_string writer (suc fuel) source destination h =
      let w = socket.write source destination in
      elim (writer.writes source destination) [
        | puts st within some_put sent less ↦ elim (Bool-cases (w.written == length source)) [
          | inl all ↦
              let whole = take_all w.written source (ground arith) in
              (w.next, ground arith, sent ∙ ap (◌++◌ (writer.accepted destination)) whole)
          | inr part ↦
              let progress : (0 < w.written) × (w.written ≤ length source) =
                (ground arith, within) in
              let (s, e, t) =
                copies_from_string writer fuel (drop w.written source) w.next
                  (omega (arith, length-drop w.written source)) in
              (s, ground arith, t ∙ joined w.written sent)
        ]
        | waits st same kept ↦
            let ready = socket.wait_writable w.next in
            let sooner = writer.pending-wait_writable source destination st in
            let (s, e, t) = copies_from_string writer fuel source ready.next (omega arith) in
            (
              s,
              ground (arith, writer.wait_writable_status w.next),
              t ∙ ap (λ l. l ++ source) (writer.accepted-wait_writable w.next ∙ same),
            )
      ]
    where
      joined :
          (n : ℕ) {s : S}
          → writer.accepted s ≡ writer.accepted destination ++ take n source
          → writer.accepted s ++ drop n source ≡ writer.accepted destination ++ source
      joined n e =
          ap (λ l. l ++ drop n source) e
          ∙ append_assoc (writer.accepted destination) (take n source) (drop n source)
          ∙ ap (◌++◌ (writer.accepted destination)) (take-append-drop n source)

-- mx::socket::create makes two ends of one channel, here one state that both ends act on: the
-- first end writes and the second reads, and closing the first end ends the stream.
pub record SocketPair (S : Type 0) : Type 0 where
  pub created : S
  pub close_first : S → S

abbrev pub max_string_size : ℕ
max_string_size = 256 * 1024

module _ {S : Type 0} (socket : Socket S) (pair : SocketPair S) where
  -- The result of BlockingCopyFromString is not looked at; `socket1` is closed at the return.
  pub write_string_to_socket : ℕ → List ℕ → Outcome (Option S)
  write_string_to_socket fuel source = do
    check (ltb (length source) max_string_size)
    returns (
        Option.map (λ r. pair.close_first r.1)
          (blocking_copy_from_string socket fuel source pair.created))

  -- A string that WriteStringToSocket wrote is the string that BlockingCopyToString reads.
  pub write-read :
      (writer : IsWriter socket) (reader : IsReader socket)
      → writer.accepted pair.created ≡ []
      → ((s : S) → reader.content (pair.close_first s) ≡ writer.accepted s)
      → (source : List ℕ) (fuel : ℕ) → length source < max_string_size
      → length source + writer.pending pair.created < fuel
      → (s : S) × (write_string_to_socket fuel source ≡ returns (some s))
        × ((fuel' : ℕ) (result : List ℕ)
            → length source + reader.pending s < fuel'
            → blocking_copy_to_string socket fuel' s result ≡ some (true, source))
  unfolding write_string_to_socket
  write-read writer reader fresh same source fuel small enough =
      let (s, e, t) = copies_from_string socket writer fuel source pair.created enough in
      let whole : reader.content (pair.close_first s) ≡ source =
        same s ∙ t ∙ ap (λ l. l ++ source) fresh in
      (
        pair.close_first s,
        ground arith,
        λ fuel' result h.
            copies_to_string socket reader fuel' (pair.close_first s) result
              (omega (arith, ap length whole))
            ∙ ap (λ (l : List ℕ). some (true, l)) whole,
      )
