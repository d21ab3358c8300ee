-- ===== src/Socket/Files/Tests.antt =====
-- A copy of three bytes, through a buffer of two, to a socket that takes a byte at a time and is busy
-- before the next one; and a copy of two bytes from such a socket.
use mtl.Base.{
  ◌<◌, ℕ, zero, suc, ◌+◌, ◌≤◌, ◌≡◌, refl, sym, ap, Bool, true, false, none, some, List, [], ◌∷◌,
  ◌++◌, length, take, drop, take-append-drop, subst, some-injective, ◌∙◌, length-take_bound, arith,
  returns, Ensures,
}
use mtl.Magenta.{Status, ok, failed, should_wait, peer_closed, timed_out, is_peer_closed, is_ok}
use mtl.Socket.Stream.{ReadResult, Socket, WriteResult}
use mtl.Socket.Files.{World, Files, run_schedule}
use mtl.Socket.Files.CopyTo
use mtl.Socket.Files.CopyTo.Invariant
use mtl.Socket.Files.CopyTo.{copy_to_file_descriptor}
use mtl.Socket.Files.CopyTo.Invariant.{IsStream, IsTarget}
use mtl.Socket.Files.CopyTo.Runs.{copies_to_file}
use mtl.Socket.Files.CopyFrom.{
  CopyFromFileHandler, fill_buffer_now, filled, on_handle_ready, on_written, wait_or_fail,
  send_callback, deliver, copy_from_file_descriptor,
}
use mtl.Socket.Files.CopyFrom.Invariant.{IsSink, IsSource, Inv}
use mtl.Socket.Files.CopyFrom.Runs.{copies_from_file}

-- The bytes that it has, and whether it is busy.
record End : Type 0 where
  bytes : List ℕ
  busy : Bool

abbrev write_sink : Bool → List ℕ → End → WriteResult End
write_sink true bytes s = record {
  status = failed should_wait;
  written = 0;
  next = record s { busy = false };
}
write_sink false bytes s = record {
  status = ok;
  written = length (take 1 bytes);
  next = record { bytes = s.bytes ++ take 1 bytes; busy = true };
}

abbrev sink : Socket End
sink = record {
  read = λ size s. record { status = failed should_wait; bytes = []; next = s };
  write = λ bytes s. write_sink s.busy bytes s;
  wait_readable = λ s. record { status = ok; next = s };
  wait_writable = λ s. record { status = ok; next = s };
}

abbrev close_sink : End → End
close_sink s = record s { busy = true }

abbrev files : Files (List ℕ)
files = record {
  read_file_descriptor = λ fd size f. (some (take size f), drop size f);
  write_file_descriptor = λ fd bytes f. (true, f ++ bytes);
}

abbrev next_id : ℕ → ℕ × ℕ
next_id n = (n, n + 1)

take_one :
    (busy : Bool) (bytes : List ℕ) (s : End)
    → is_ok (write_sink busy bytes s).status ≡ true
    → ((write_sink busy bytes s).written ≤ length bytes)
      × ((write_sink busy bytes s).next.bytes
          ≡ s.bytes ++ take (write_sink busy bytes s).written bytes)
take_one true bytes s e = cc
take_one false [] s e = (omega arith, refl)
take_one false (x ∷ xs) s e = (omega arith, refl)

take_none :
    (busy : Bool) (bytes : List ℕ) (s : End)
    → is_ok (write_sink busy bytes s).status ≡ false
    → (write_sink busy bytes s).next.bytes ≡ s.bytes
take_none true bytes s e = refl
take_none false bytes s e = cc

sink-IsSink : IsSink sink close_sink (λ s. s.bytes)
sink-IsSink = record {
  accepted-close = λ s. refl;
  written_bound = λ bytes s e. (take_one s.busy bytes s e).0;
  accepted-write = λ bytes s e. (take_one s.busy bytes s e).1;
  accepted-write_failed = λ bytes s e. take_none s.busy bytes s e;
}

read_some :
    (size : ℕ) (f bytes : List ℕ)
    → take size f ≡ bytes
    → (length bytes ≤ size) × (f ≡ bytes ++ drop size f)
read_some size f bytes e = (
  subst (λ l. length l ≤ size) e (length-take_bound size f),
  sym (take-append-drop size f) ∙ ap (λ l. l ++ drop size f) e,
)

read_nothing : (size : ℕ) (f : List ℕ) → 0 < size → take size f ≡ [] → drop size f ≡ []
read_nothing zero f h e = absurd (omega arith)
read_nothing (suc n) [] h e = refl
read_nothing (suc n) (x ∷ f) h e = cc

-- A file whose reads never fail, and which end with its last byte.
files-IsSource : IsSource files 3 (λ f. f)
files-IsSource = record {
  read_bound = λ size f bytes e. (read_some size f bytes (some-injective e)).0;
  content-read = λ size f bytes e. (read_some size f bytes (some-injective e)).1;
  content-read_failed = λ size f e. cc;
  content-read_end = λ size f h e. read_nothing size f h (some-injective e);
}

abbrev schedule : List (ℕ × Status)
schedule = (0, ok) ∷ (7, ok) ∷ (0, ok) ∷ (0, ok) ∷ (0, ok) ∷ (0, ok) ∷ (0, ok) ∷ []

abbrev began : World End (List ℕ) ℕ CopyFromFileHandler
began =
    copy_from_file_descriptor sink close_sink files next_id 3 (0 ∷ 0 ∷ []) 9 4
      (record { bytes = []; busy = false }) (65 ∷ 66 ∷ 67 ∷ []) 1

copies_from_file_example :
    Ensures
      (Inv (λ (s : End). s.bytes) (λ f. f) (65 ∷ 66 ∷ 67 ∷ []) 3)
      (run_schedule (deliver sink close_sink files next_id) schedule began)
copies_from_file_example =
    copies_from_file sink close_sink files next_id (λ s. s.bytes) (λ f. f) 3 sink-IsSink
      files-IsSource (0 ∷ 0 ∷ []) (omega arith) 9 4 (record { bytes = []; busy = false })
      (65 ∷ 66 ∷ 67 ∷ []) 1 schedule

-- The copy as it runs: the callback is called with true, and the socket has the three bytes.
copied :
    run_schedule (deliver sink close_sink files next_id) schedule began
    ≡ returns (record {
      socket = record { bytes = 65 ∷ 66 ∷ 67 ∷ []; busy = true };
      files = [];
      waiter = 3;
      handler = none;
      pending = [];
      results = (true, 3) ∷ [];
    })
unfolding run_schedule copy_from_file_descriptor deliver fill_buffer_now filled on_handle_ready
    on_written wait_or_fail send_callback
copied = refl

abbrev read_stream : Bool → List ℕ → End → ReadResult End
read_stream busy [] s = record { status = failed peer_closed; bytes = []; next = s }
read_stream true (x ∷ xs) s = record {
  status = failed should_wait;
  bytes = [];
  next = record s { busy = false };
}
read_stream false (x ∷ xs) s = record {
  status = ok;
  bytes = x ∷ [];
  next = record { bytes = xs; busy = true };
}

abbrev stream : Socket End
stream = record sink { read = λ size s. read_stream s.busy s.bytes s }

stream_got :
    (busy : Bool) (bytes : List ℕ) (s : End)
    → is_ok (read_stream busy bytes s).status ≡ true
    → bytes ≡ (read_stream busy bytes s).bytes ++ (read_stream busy bytes s).next.bytes
stream_got true [] s e = cc
stream_got false [] s e = cc
stream_got true (x ∷ xs) s e = cc
stream_got false (x ∷ xs) s e = refl

stream_none :
    (busy : Bool) (bytes : List ℕ) (s : End)
    → s.bytes ≡ bytes
    → is_ok (read_stream busy bytes s).status ≡ false
    → (read_stream busy bytes s).next.bytes ≡ bytes
stream_none true [] s k e = k
stream_none false [] s k e = k
stream_none true (x ∷ xs) s k e = k
stream_none false (x ∷ xs) s k e = cc

stream_closed :
    (busy : Bool) (bytes : List ℕ) (s : End)
    → s.bytes ≡ bytes
    → is_peer_closed (read_stream busy bytes s).status ≡ true
    → (read_stream busy bytes s).next.bytes ≡ []
stream_closed true [] s k e = k
stream_closed false [] s k e = k
stream_closed true (x ∷ xs) s k e = cc
stream_closed false (x ∷ xs) s k e = cc

stream-IsStream : IsStream stream (λ s. s.bytes)
stream-IsStream = record {
  content-read = λ size s e. stream_got s.busy s.bytes s e;
  content-read_failed = λ size s e. stream_none s.busy s.bytes s refl e;
  content-read_closed = λ size s e. stream_closed s.busy s.bytes s refl e;
}

files-IsTarget : IsTarget files 3 (λ f. f)
files-IsTarget = record {
  written-write = λ bytes f e. refl;
  written-write_failed = λ bytes f e. cc;
}

copies_to_file_example :
    Ensures (CopyTo.Invariant.Inv (λ (s : End). s.bytes) (λ f. f) (90 ∷ 65 ∷ 66 ∷ []) 3) (
      run_schedule
        (CopyTo.deliver stream close_sink files next_id)
        ((0, ok) ∷ (0, ok) ∷ (0, failed timed_out) ∷ [])
        (copy_to_file_descriptor stream close_sink files next_id
          (record { bytes = 65 ∷ 66 ∷ []; busy = false })
          3
          (90 ∷ [])
          1))
copies_to_file_example =
    copies_to_file stream close_sink files next_id (λ s. s.bytes) (λ f. f) 3 stream-IsStream
      files-IsTarget (record { bytes = 65 ∷ 66 ∷ []; busy = false }) (90 ∷ []) 1
      ((0, ok) ∷ (0, ok) ∷ (0, failed timed_out) ∷ []) (refl, (refl, (refl, tt)))
