-- ===== src/Io/DeviceWatcher/Tests.antt =====
-- Scans of small messages by a client that keeps the names it is told of, and by one that destroys
-- the watcher at once; and a process whose ioctl is refused.
use mtl.Base.{ℕ, ◌≡◌, refl, Bool, true, false, List, [], ◌∷◌, ◌++◌, arith}
use mtl.Io.DeviceWatcher.{Events, finished, destroyed, overrun, scan_events}
use mtl.Io.DeviceWatcher.Messages.{
  Entry, encode, deliver, scan-encode, scan_stops, scan_overruns, scan_invents, scan_destroyed,
}
use mtl.Io.DeviceWatcher.Termination.{HasEnded, scan_events-HasEnded}

abbrev events : Events
events = record { added = 1; existing = 3 }

abbrev keep : ℕ → List ℕ → List (List ℕ) → Bool × List (List ℕ)
keep dir_fd name names = (false, names ++ name ∷ [])

abbrev leave : ℕ → List ℕ → List (List ℕ) → Bool × List (List ℕ)
leave dir_fd name names = (true, names ++ name ∷ [])

abbrev tty : Entry
tty = record { event = 1; name = 116 ∷ 116 ∷ 121 ∷ [] }

abbrev removed : Entry
removed = record { event = 2; name = 120 ∷ [] }

scan-encode_example :
    scan_events events keep 4 3 (encode (removed ∷ tty ∷ []) ++ []) 8 []
    ≡ scan_events events keep 4 1 [] 4 ((116 ∷ 116 ∷ 121 ∷ []) ∷ [])
unfolding encode deliver
scan-encode_example = scan-encode events keep 4 (removed ∷ tty ∷ []) [] 1 0 [] (refl, (refl, tt))

scan_stops_example :
    scan_events events keep 4 3 (encode (removed ∷ tty ∷ []) ++ 1 ∷ 9 ∷ []) 8 []
    ≡ finished ((116 ∷ 116 ∷ 121 ∷ []) ∷ [])
unfolding encode deliver
scan_stops_example =
    scan_stops events keep 4 (removed ∷ tty ∷ []) 1 9 [] 0 [] (refl, (refl, tt)) (omega arith)

scan_overruns_example :
    scan_events events keep 4 2 (encode (tty ∷ []) ++ []) 5 []
    ≡ overrun ((116 ∷ 116 ∷ 121 ∷ []) ∷ [])
unfolding encode deliver
scan_overruns_example = scan_overruns events keep 4 tty [] 0 [] (refl, tt)

scan_invents_example :
    scan_events events keep 4 4 (encode (tty ∷ []) ++ 1 ∷ 0 ∷ 0 ∷ 9 ∷ []) 5 []
    ≡ scan_events events keep 4 2 (0 ∷ 9 ∷ []) 2 ((116 ∷ 116 ∷ 121 ∷ []) ∷ [] ∷ [])
unfolding encode deliver
scan_invents_example = scan_invents events keep 4 tty [] 1 (0 ∷ 9 ∷ []) 2 [] (refl, tt) refl refl

scan_destroyed_example :
    scan_events events leave 4 1 (encode (tty ∷ removed ∷ [])) 8 []
    ≡ destroyed ((116 ∷ 116 ∷ 121 ∷ []) ∷ [])
unfolding encode deliver
scan_destroyed_example = scan_destroyed events leave 4 [] tty (removed ∷ []) [] 0 [] tt refl refl

scan_events-HasEnded_example :
    HasEnded (scan_events events keep 4 3 (1 ∷ 0 ∷ []) 9 [])
    × (scan_events events keep 4 3 (1 ∷ 0 ∷ []) 9 []
        ≡ scan_events events keep 4 7 (1 ∷ 0 ∷ []) 9 [])
scan_events-HasEnded_example =
    scan_events-HasEnded events keep 4 3 7 (1 ∷ 0 ∷ []) 9 [] (omega arith) (omega arith)
