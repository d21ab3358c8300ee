-- ===== src/Socket/Tests.antt =====
-- Transfers over a small pipe.
use mtl.Base.{ℕ, ◌+◌, ◌<◌, ◌≡◌, refl, true, some, List, [], ◌∷◌, ◌++◌, length, returns, arith}
use mtl.Socket.BlockingDrain.{blocking_drain_from, TakesAll, drains_all}
use mtl.Socket.Strings.{
  blocking_copy_to_string, blocking_copy_from_string, copies_from_string, SocketPair,
  write_string_to_socket, write-read,
}
use mtl.Socket.Pipe.{Pipe, pipe, pipe-IsReader, pipe-IsWriter}

abbrev pair : SocketPair Pipe
pair = record {
  created = record { sent = []; arriving = []; busy = 2 };
  close_first = λ s. record s { arriving = s.sent; busy = 1 };
}

abbrev filled : Pipe
filled = record { sent = []; arriving = 104 ∷ 105 ∷ []; busy = 3 }

abbrev keep_bytes : List ℕ → List ℕ → ℕ × List ℕ
keep_bytes bytes b = (length bytes, b ++ bytes)

keep_bytes-TakesAll : TakesAll pipe keep_bytes (λ b. b)
keep_bytes-TakesAll = record { takes = λ bytes b. omega arith; taken-write_bytes = λ bytes b. refl }

drains_all_example :
    (b' : List ℕ) × (blocking_drain_from pipe keep_bytes 6 filled (7 ∷ []) ≡ some (true, b'))
    × (b' ≡ 7 ∷ 104 ∷ 105 ∷ [])
drains_all_example =
    drains_all pipe keep_bytes (λ b. b) pipe-IsReader keep_bytes-TakesAll 6 filled (7 ∷ [])
      (omega arith)

copies_from_string_example :
    (s : Pipe) × (blocking_copy_from_string pipe 5 (104 ∷ 105 ∷ []) pair.created ≡ some (true, s))
    × (s.sent ≡ 104 ∷ 105 ∷ [])
copies_from_string_example =
    copies_from_string pipe pipe-IsWriter 5 (104 ∷ 105 ∷ []) pair.created (omega arith)

write-read_example :
    (s : Pipe) × (write_string_to_socket pipe pair 5 (104 ∷ 105 ∷ []) ≡ returns (some s))
    × ((fuel' : ℕ) (result : List ℕ)
        → 2 + s.busy < fuel'
        → blocking_copy_to_string pipe fuel' s result ≡ some (true, 104 ∷ 105 ∷ []))
write-read_example =
    write-read pipe pair pipe-IsWriter pipe-IsReader refl (λ s. refl) (104 ∷ 105 ∷ []) 5
      (omega arith) (omega arith)
