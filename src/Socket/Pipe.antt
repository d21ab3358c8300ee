-- ===== src/Socket/Pipe.antt =====
-- A small pipe for the tests: it moves one byte at a time and makes its ends wait.
use mtl.Base.{ℕ, zero, suc, ◌-◌, ◌<◌, ◌≡◌, refl, List, [], ◌∷◌, ◌++◌, length, take, arith}
use mtl.Magenta.{ok, failed, should_wait, peer_closed}
use mtl.Socket.Stream.{
  ReadResult, WriteResult, WaitResult, Socket, Reads, gets, ends, Writes, puts, IsReader, IsWriter,
}
use mtl.Socket.Stream

-- `busy` is the number of waits before the next byte.
pub record Pipe : Type 0 where
  pub sent : List ℕ
  pub arriving : List ℕ
  pub busy : ℕ

abbrev pub read_pipe : ℕ → List ℕ → Pipe → ReadResult Pipe
read_pipe zero [] s = record { status = failed peer_closed; bytes = []; next = s }
read_pipe zero (x ∷ xs) s = record {
  status = ok;
  bytes = x ∷ [];
  next = record s { arriving = xs };
}
read_pipe (suc n) xs s = record { status = failed should_wait; bytes = []; next = s }

abbrev pub write_pipe : ℕ → List ℕ → Pipe → WriteResult Pipe
write_pipe zero bytes s = record {
  status = ok;
  written = length (take 1 bytes);
  next = record s { sent = s.sent ++ take 1 bytes };
}
write_pipe (suc n) bytes s = record { status = failed should_wait; written = 0; next = s }

abbrev pub wait_pipe : Pipe → WaitResult Pipe
wait_pipe s = record { status = ok; next = record s { busy = s.busy - 1 } }

abbrev pub pipe : Socket Pipe
pipe = record {
  read = λ size s. read_pipe s.busy s.arriving s;
  write = λ bytes s. write_pipe s.busy bytes s;
  wait_readable = wait_pipe;
  wait_writable = wait_pipe;
}

pub pipe-Reads :
    (busy : ℕ) (arriving sent : List ℕ) (size : ℕ)
    → 0 < size
    → Reads
        (λ (t : Pipe). t.arriving)
        (λ t. t.busy)
        size
        (record { sent = sent; arriving = arriving; busy = busy })
        (read_pipe busy arriving (record { sent = sent; arriving = arriving; busy = busy }))
pipe-Reads zero [] sent size h = ends refl refl
pipe-Reads zero (x ∷ xs) sent size h = gets refl (omega arith) (omega arith) refl (omega arith)
pipe-Reads (suc n) xs sent size h = Stream.Reads.waits refl refl refl

pub pipe-Writes :
    (busy : ℕ) (bytes : List ℕ) (s : Pipe)
    → s.busy ≡ busy
    → Writes (λ (t : Pipe). t.sent) (λ t. t.busy) bytes s (write_pipe busy bytes s)
pipe-Writes zero [] s e = puts refl (omega arith) (λ h. h) refl (omega arith)
pipe-Writes zero (x ∷ xs) s e = puts refl (omega arith) (λ h. omega arith) refl (omega arith)
pipe-Writes (suc n) bytes s e = Stream.Writes.waits refl refl refl

pub pipe-pending :
    (n : ℕ) (xs : List ℕ) (s : Pipe)
    → s.busy ≡ n
    → (read_pipe n xs s).status ≡ failed should_wait
    → (read_pipe n xs s).next.busy - 1 < s.busy
pipe-pending zero [] s e h = cc
pipe-pending zero (x ∷ xs) s e h = cc
pipe-pending (suc n) xs s e h = omega arith

pub pipe-room :
    (n : ℕ) (bytes : List ℕ) (s : Pipe)
    → s.busy ≡ n
    → (write_pipe n bytes s).status ≡ failed should_wait
    → (write_pipe n bytes s).next.busy - 1 < s.busy
pipe-room zero bytes s e h = cc
pipe-room (suc n) bytes s e h = omega arith

abbrev pub pipe-IsReader : IsReader pipe
pipe-IsReader = record {
  content = λ s. s.arriving;
  pending = λ s. s.busy;
  reads = λ size s. pipe-Reads s.busy s.arriving s.sent size;
  wait_readable_status = λ s. refl;
  content-wait_readable = λ s. refl;
  pending-wait_readable = λ size s h. pipe-pending s.busy s.arriving s refl h;
}

abbrev pub pipe-IsWriter : IsWriter pipe
pipe-IsWriter = record {
  accepted = λ s. s.sent;
  pending = λ s. s.busy;
  writes = λ bytes s. pipe-Writes s.busy bytes s refl;
  wait_writable_status = λ s. refl;
  accepted-wait_writable = λ s. refl;
  pending-wait_writable = λ bytes s h. pipe-room s.busy bytes s refl h;
}
