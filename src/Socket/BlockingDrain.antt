-- ===== src/Socket/BlockingDrain.antt =====
-- socket/blocking_drain.h and socket/blocking_drain.cc. The loop takes fuel, one unit for each
-- round; `none` means that it ran out.
use mtl.Base.{
  ℕ, zero, suc, ◌+◌, ◌*◌, ◌<◌, ◌≤◌, ◌≡◌, sym, ◌∙◌, ap, Bool, true, false, Option, none, some, List,
  ◌++◌, append_assoc, append-nil, length, length-append, ltb, if◌then◌else◌, arith,
}
use mtl.Magenta.{Status, is_ok, is_should_wait, is_peer_closed}
use mtl.Socket.Stream.{Socket, gets, waits, ends, IsReader}

-- std::vector<char> buffer(64 * 1024)
abbrev pub buffer_size : ℕ
buffer_size = 64 * 1024

module _ {S B : Type 0} (socket : Socket S) (write_bytes : List ℕ → B → ℕ × B) where
  -- The end of the loop with a status that is neither MX_OK nor MX_ERR_SHOULD_WAIT.
  abbrev failed_read : Status → Bool
  failed_read status = is_peer_closed status

  unfoldable pub blocking_drain_from : ℕ → S → B → Option (Bool × B)
  blocking_drain_from zero source b = none
  blocking_drain_from (suc fuel) source b =
      let r = socket.read buffer_size source in
      let w = write_bytes r.bytes b in
      let on_data = blocking_drain_from fuel r.next w.1 in
      let ready = socket.wait_readable r.next in
      let on_ready = blocking_drain_from fuel ready.next b in
      if is_ok r.status
      then (if ltb w.0 (length r.bytes) then some (false, w.1) else on_data)
      else if is_should_wait r.status
      then (if is_ok ready.status then on_ready else some (is_peer_closed ready.status, b))
      else some (failed_read r.status, b)

  -- A consumer that takes all bytes: `taken` is what it has taken so far.
  pub record TakesAll (taken : B → List ℕ) : Type 0 where
    pub takes : (bytes : List ℕ) (b : B) → length bytes ≤ (write_bytes bytes b).0
    pub taken-write_bytes :
        (bytes : List ℕ) (b : B) → taken (write_bytes bytes b).1 ≡ taken b ++ bytes

  -- The rounds that are enough for a stream: one for each byte and each wait to come, and the last.
  abbrev pub rounds : IsReader socket → S → ℕ
  rounds reader s = length (reader.content s) + reader.pending s

  -- From a stream and a consumer that takes all bytes, BlockingDrainFrom returns true, and the
  -- consumer has taken the bytes of the stream, all of them and in order.
  pub drains_all :
      (taken : B → List ℕ) (reader : IsReader socket)
      → TakesAll taken
      → (fuel : ℕ) (source : S) (b : B) → rounds reader source < fuel
      → (b' : B) × (blocking_drain_from fuel source b ≡ some (true, b'))
        × (taken b' ≡ taken b ++ reader.content source)
  unfolding blocking_drain_from
  drains_all taken reader all zero source b h = absurd (omega arith)
  drains_all taken reader all (suc fuel) source b h =
      let r = socket.read buffer_size source in
      let b₁ = (write_bytes r.bytes b).1 in
      elim (reader.reads buffer_size source (omega arith)) [
        | gets st pos small eq less ↦
            let (b', e, t) =
              drains_all taken reader all fuel r.next b₁
                (omega (arith, ap length eq, length-append r.bytes (reader.content r.next))) in
            (
              b',
              ground (arith, all.takes r.bytes b),
              t ∙ joined r.bytes b (reader.content r.next) eq,
            )
        | waits st same kept ↦
            let ready = socket.wait_readable r.next in
            let sooner = reader.pending-wait_readable buffer_size source st in
            let unread = reader.content-wait_readable r.next ∙ same in
            let (b', e, t) =
              drains_all taken reader all fuel ready.next b (omega (arith, ap length unread)) in
            (b', ground (arith, reader.wait_readable_status r.next), t ∙ ap (◌++◌ (taken b)) unread)
        | ends st eq ↦ (b, ground arith, sym (ap (◌++◌ (taken b)) eq ∙ append-nil (taken b)))
      ]
    where
      joined :
          (bytes : List ℕ) (b : B) (rest : List ℕ)
          → reader.content source ≡ bytes ++ rest
          → taken (write_bytes bytes b).1 ++ rest ≡ taken b ++ reader.content source
      joined bytes b rest eq =
          ap (λ l. l ++ rest) (all.taken-write_bytes bytes b)
          ∙ append_assoc (taken b) bytes rest
          ∙ ap (◌++◌ (taken b)) (sym eq)
