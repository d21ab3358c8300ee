-- ===== src/Socket/SocketDrainer/Drains.antt =====
-- A drainer hands all bytes of its source to its client.
use mtl.Base.{
  Bool, Ensures-mono, true, ◌>>=◌, Ensures-bind, arith, ◌≤◌, ℕ, ◌+◌, ◌≡◌, refl, ap, false, List, [],
  ◌++◌, length, Ensures,
}
use mtl.Socket.Stream.{Socket, IsReader}
use mtl.Socket.SocketDrainer.{complete_waits, start, read_data, Client, Waiter, World}
use mtl.Socket.SocketDrainer.Invariant.{
  IsRecording, WaitsAreShort, Complete, Inv, draining, complete, destroyed,
}
use mtl.Socket.SocketDrainer.Calls.{read_data-Inv, complete_waits-Inv}

true-ne-false : {b : Bool} → b ≡ true → b ≡ false → ⊥
true-ne-false h k = ground arith

module _ {S E C : Type 0} (socket : Socket S) (close : S → S) (waiter : Waiter E)
    (client : Client C) (reader : IsReader socket) (recording : IsRecording client)
    (short : WaitsAreShort socket reader) where
  -- Start on a stream, and then `k` completed waits: no check fails and no destroyed drainer is used.
  -- Either the drainer waits once, and the client has what was read; or the client has all bytes of the
  -- stream, in order, was told so once, and nothing waits; or the client destroyed the drainer in a
  -- call, has a beginning of the bytes, and nothing waits. If `k` is not less than the bytes and the
  -- waits to come, less `n`, fewer than `n` rounds are left.
  pub start-Inv :
      (k n : ℕ) (source : S) (e : E) (c : C)
      → recording.received c ≡ []
      → recording.completions c ≡ 0
      → length (reader.content source) + reader.pending source ≤ k + n
      → Ensures (Inv socket close waiter client reader recording (reader.content source) n) (
          start socket close waiter client source e c
          >>= complete_waits socket close waiter client k)
  unfolding start
  start-Inv k n source e c none_yet untold bound =
      Ensures-bind (Inv socket close waiter client reader recording (reader.content source) (k + n))
        (Inv socket close waiter client reader recording (reader.content source) n)
        (read_data socket close waiter client _) (complete_waits socket close waiter client k)
        (read_data-Inv socket close waiter client reader recording (reader.content source) short
          (k + n) _
          record {
            alive = refl;
            no_wait = refl;
            balance = ap (λ l. l ++ reader.content source) none_yet;
            not_yet = untold;
          }
          bound)
        (complete_waits-Inv socket close waiter client reader recording (reader.content source)
          short k n)

  -- If the client never destroys the drainer, then after as many completed waits as there are bytes and
  -- waits to come, it has all bytes of the stream, in order, and was told once that they are complete.
  pub start-Complete :
      (source : S) (e : E) (c : C)
      → recording.received c ≡ []
      → recording.completions c ≡ 0
      → ((bytes : List ℕ) (d : C) → (client.on_data_available bytes d).0 ≡ false)
      → Ensures (Complete socket close waiter client reader recording (reader.content source)) (
          start socket close waiter client source e c
          >>= complete_waits socket close waiter client
              (length (reader.content source) + reader.pending source))
  start-Complete source e c none_yet untold stays =
      Ensures-mono _ _ _
        (start-Inv (length (reader.content source) + reader.pending source) 0 source e c none_yet
          untold (omega arith))
        at_end
    where
      at_end :
          (s : World S E C)
          → Inv socket close waiter client reader recording (reader.content source) 0 s
          → Complete socket close waiter client reader recording (reader.content source) s
      at_end s (draining id d) = absurd (omega (arith, d.bound))
      at_end s (complete c') = c'
      at_end s (destroyed d) = absurd (true-ne-false (d.left) (stays d.bytes d.before))
