-- ===== src/Socket/Files/CopyTo/Tests.antt =====
-- A copy from a socket that makes its reader wait before each byte, and its bytes at the end.
use mtl.Base.{
  ℕ, ◌+◌, refl, Bool, true, false, none, List, [], ◌∷◌, ◌++◌, length, Ensures, if◌then◌else◌, arith,
}
use mtl.Magenta.{ok, failed, should_wait, peer_closed}
use mtl.Socket.Stream.{Socket, ReadResult}
use mtl.Socket.Files.{Files, run_schedule, turns}
use mtl.Socket.Files.CopyTo.{deliver, copy_to_file_descriptor}
use mtl.Socket.Files.CopyTo.Progress.{
  Advances, gets, waits, ends, Complete, copies_to_file-Complete,
}

record Source : Type 0 where
  bytes : List ℕ
  busy : Bool

abbrev read_source : Bool → List ℕ → Source → ReadResult Source
read_source true xs s = record {
  status = failed should_wait;
  bytes = [];
  next = record s { busy = false };
}
read_source false [] s = record { status = failed peer_closed; bytes = []; next = s }
read_source false (x ∷ xs) s = record {
  status = ok;
  bytes = x ∷ [];
  next = record { bytes = xs; busy = true };
}

abbrev source : Socket Source
source = record {
  read = λ size s. read_source s.busy s.bytes s;
  write = λ bytes s. record { status = failed should_wait; written = 0; next = s };
  wait_readable = λ s. record { status = ok; next = s };
  wait_writable = λ s. record { status = ok; next = s };
}

abbrev waits_to_come : Source → ℕ
waits_to_come s = (if s.busy then 1 else 0) + length s.bytes

source-Advances :
    (busy : Bool) (xs : List ℕ)
    → Advances
        (λ (s : Source). s.bytes)
        waits_to_come
        (record { bytes = xs; busy = busy })
        (read_source busy xs (record { bytes = xs; busy = busy }))
source-Advances true xs = waits refl refl (omega arith)
source-Advances false [] = ends refl refl
source-Advances false (x ∷ xs) = gets refl (omega arith) refl (omega arith)

abbrev files : Files (List ℕ)
files = record {
  read_file_descriptor = λ fd size f. (none, f);
  write_file_descriptor = λ fd bytes f. (true, f ++ bytes);
}

copies_to_file-Complete_example :
    Ensures
      (Complete source
        (λ s. s)
        files
        (λ e. (e, e + 1))
        (λ s. s.bytes)
        waits_to_come
        (λ f. f)
        3
        (90 ∷ 65 ∷ 66 ∷ []))
      (run_schedule (deliver source (λ s. s) files (λ e. (e, e + 1))) (turns 6) (
        copy_to_file_descriptor source
          (λ s. s)
          files
          (λ e. (e, e + 1))
          (record { bytes = 65 ∷ 66 ∷ []; busy = true })
          3
          (90 ∷ [])
          1))
copies_to_file-Complete_example =
    copies_to_file-Complete source (λ s. s) files (λ e. (e, e + 1)) (λ s. s.bytes) waits_to_come
      (λ f. f) 3 (λ size s h. source-Advances s.busy s.bytes) (λ bytes f. (refl, refl))
      (record { bytes = 65 ∷ 66 ∷ []; busy = true }) (90 ∷ []) 1 6 (omega arith)
