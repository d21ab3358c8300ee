-- ===== src/Io/DeviceWatcher/Termination.antt =====
-- The loop of DeviceWatcher::OnHandleReady ends, whatever the message and the callback.
use mtl.Base.{
  ◌-◌, take, ℕ, suc, zero, ◌<◌, ◌≡◌, refl, Bool, List, [], ◌∷◌, length, drop, length-drop, arith,
}
use mtl.Io.DeviceWatcher.{Events, Scan, finished, destroyed, overrun, out_of_fuel, scan_events}

-- The loop came to an end, or read behind the buffer.
abbrev pub HasEnded : {W : Type 0} → Scan W → Type 0
HasEnded (finished w) = Unit
HasEnded (destroyed w) = Unit
HasEnded (overrun w) = Unit
HasEnded (out_of_fuel w) = ⊥

module _ {W : Type 0} (events : Events) (callback : ℕ → List ℕ → W → Bool × W) (dir_fd : ℕ) where
  -- With more fuel than bytes of the buffer, the loop ends, for every buffer, every size that the
  -- channel may report and every callback, and more fuel gives the same end: each round takes two bytes
  -- of the buffer, also where the name is empty and `size` does not fall.
  pub scan_events-HasEnded :
      (fuel more : ℕ) (msg : List ℕ) (size : ℕ) (w : W)
      → length msg < fuel
      → length msg < more
      → HasEnded (scan_events events callback dir_fd fuel msg size w)
        × (scan_events events callback dir_fd fuel msg size w
            ≡ scan_events events callback dir_fd more msg size w)
  unfolding scan_events
  scan_events-HasEnded zero more msg size w h k = absurd (omega arith)
  scan_events-HasEnded (suc fuel) zero msg size w h k = absurd (omega arith)
  scan_events-HasEnded (suc fuel) (suc more) [] size w h k = (ground arith, refl)
  scan_events-HasEnded (suc fuel) (suc more) (event ∷ []) size w h k = (ground arith, refl)
  scan_events-HasEnded (suc fuel) (suc more) (event ∷ namelen ∷ msg) size w h k =
      let shorter = length-drop namelen msg in
      let found = callback dir_fd (take namelen msg) w in
      let on_found =
        scan_events-HasEnded fuel more (drop namelen msg) (size - namelen) found.1
          (omega (arith, shorter, h)) (omega (arith, shorter, k)) in
      let on_other =
        scan_events-HasEnded fuel more (drop namelen msg) (size - namelen) w
          (omega (arith, shorter, h)) (omega (arith, shorter, k)) in
      (ground (arith, on_found, on_other), ground (arith, on_found, on_other))
