-- ===== src/Socket/Files/CopyFrom/Progress.antt =====
-- A copy from a file to a socket comes to its end, where neither of them fails.
use mtl.Base.{
  ℕ, zero, suc, ◌+◌, ◌-◌, ◌<◌, ◌≤◌, ◌≡◌, refl, ap, ◌∙◌, true, none, some, List, [], ◌∷◌, ◌++◌,
  length, length-append, length-drop, length-take, drop, ◌==◌, Ensures, Ensures-bind, Ensures-both,
  Bool-cases, inl, inr, arith,
}
use mtl.Magenta.{ok, failed, should_wait}
use mtl.Socket.Stream.{Socket, WriteResult}
use mtl.Socket.Files.{
  Request, fill_buffer, handle_ready, wait_complete, World, Files, step, step_idle, run_schedule,
  turns,
}
use mtl.Socket.Files.CopyFrom.{
  CopyFromFileHandler, unsent, on_handle_ready, on_written, wait_or_fail, send_callback, filled,
  fill_buffer_now, deliver, copy_from_file_descriptor,
}
use mtl.Socket.Files.CopyFrom.Invariant.{IsInBounds, id_of, IsSink, IsSource, Inv, copying, ended}
use mtl.Socket.Files.CopyFrom.Runs.{copies_from_file}

-- A write of some bytes is accepted in part at least, or has to wait, which happens `waits_to_come` times at
-- most.
pub data Advances {S : Type 0} (pending : S → ℕ) (bytes : List ℕ) (s : S) (w : WriteResult S)
    : Type 0 where
  puts :
      w.status ≡ ok
      → 0 < w.written
      → w.written ≤ length bytes
      → pending w.next ≤ pending s
      → Advances pending bytes s w
  waits : w.status ≡ failed should_wait → pending w.next < pending s → Advances pending bytes s w

-- The bytes in the buffer that are to be sent.
abbrev pub left_in_buffer : Request → CopyFromFileHandler → ℕ
left_in_buffer fill_buffer h = 0
left_in_buffer _ h = h.buffer_end - h.buffer_offset

length-unsent :
    (h : CopyFromFileHandler)
    → h.buffer_end ≤ length h.buffer
    → length (unsent h) ≡ h.buffer_end - h.buffer_offset
length-unsent h bound =
    length-take (h.buffer_end - h.buffer_offset) (drop h.buffer_offset h.buffer)
      (omega (arith, length-drop h.buffer_offset h.buffer))

module _ {S F E : Type 0} (socket : Socket S) (close : S → S) (files : Files F)
    (async_wait : E → ℕ × E) (pending : S → ℕ) (content : F → List ℕ) (fd : ℕ) where
  pub record Complete (s : World S F E CopyFromFileHandler) : Type 0 where
    pub deleted : s.handler ≡ none
    pub none_asked : s.pending ≡ []
    pub one_result : s.results ≡ (true, fd) ∷ []

  -- The handler goes on, with fewer than `n` turns to come.
  record Going (n : ℕ) (r : Request) (h : CopyFromFileHandler) (s : World S F E CopyFromFileHandler)
      : Type 0 where
    alive : s.handler ≡ some h
    asked : s.pending ≡ r ∷ []
    no_result : s.results ≡ []
    source_kept : h.source ≡ fd
    has_buffer : 0 < length h.buffer
    waits_for : h.wait_id ≡ id_of r
    in_bounds : IsInBounds r h
    bound : left_in_buffer r h + length (content s.files) + pending s.socket < n

  data After (n : ℕ) (s : World S F E CopyFromFileHandler) : Type 0 where
    completed : Complete s → After n s
    goes_on : (r : Request) (h : CopyFromFileHandler) → Going n r h s → After n s

  module _
      (advances : (bytes : List ℕ) (s : S)
        → 0 < length bytes
        → Advances pending bytes s (socket.write bytes s))
      (reads : (size : ℕ) (f : F)
        → 0 < size
        → (bytes : List ℕ) × ((files.read_file_descriptor fd size f).0 ≡ some bytes)
          × (length bytes ≤ size)
          × (content f ≡ bytes ++ content (files.read_file_descriptor fd size f).1)) where
    -- A handler that has something to send and waits for nothing, while no call is asked for.
    record Ready (n : ℕ) (h : CopyFromFileHandler) (s : World S F E CopyFromFileHandler)
        : Type 0 where
      none_asked : s.pending ≡ []
      no_result : s.results ≡ []
      source_kept : h.source ≡ fd
      has_buffer : 0 < length h.buffer
      no_wait : h.wait_id ≡ none
      some_left : h.buffer_offset < h.buffer_end
      end_bound : h.buffer_end ≤ length h.buffer
      bound : h.buffer_end - h.buffer_offset + length (content s.files) + pending s.socket < suc n

    on_handle_ready-After :
        (n : ℕ) (h : CopyFromFileHandler) (s : World S F E CopyFromFileHandler)
        → Ready n h s
        → Ensures (After n) (on_handle_ready socket close files async_wait ok h s)
    unfolding on_handle_ready on_written wait_or_fail
    on_handle_ready-After n h s c =
        let w = socket.write (unsent h) s.socket in
        let size = length-unsent h c.end_bound in
        elim (advances (unsent h) s.socket (omega (arith, size, c.some_left))) [
          | puts st some_bytes within less ↦
              let h' : CopyFromFileHandler = record h {
                buffer_offset = h.buffer_offset + w.written;
              } in
              elim (Bool-cases (h.buffer_offset + w.written == h.buffer_end)) [
                | inl all ↦
                    rw (st, all)
                      (goes_on fill_buffer h' (record {
                        alive = refl;
                        asked = ap (λ l. l ++ fill_buffer ∷ []) c.none_asked;
                        no_result = c.no_result;
                        source_kept = c.source_kept;
                        has_buffer = c.has_buffer;
                        waits_for = c.no_wait;
                        in_bounds = tt;
                        bound = omega (arith, c.bound, c.some_left, less);
                      }))
                | inr part ↦
                    rw (st, part)
                      (goes_on handle_ready h' (record {
                        alive = refl;
                        asked = ap (λ l. l ++ handle_ready ∷ []) c.none_asked;
                        no_result = c.no_result;
                        source_kept = c.source_kept;
                        has_buffer = c.has_buffer;
                        waits_for = c.no_wait;
                        in_bounds = (ground (arith, size, within, part, c.some_left), c.end_bound);
                        bound = omega (arith, c.bound, c.some_left, less, some_bytes, size, within);
                      }))
              ]
          | waits st less ↦
              let id = (async_wait s.waiter).0 in
              rw st (
                goes_on (wait_complete id) (record h { wait_id = some id })
                  (record {
                    alive = refl;
                    asked = ap (λ l. l ++ wait_complete id ∷ []) c.none_asked;
                    no_result = c.no_result;
                    source_kept = c.source_kept;
                    has_buffer = c.has_buffer;
                    waits_for = refl;
                    in_bounds = (c.some_left, c.end_bound);
                    bound = omega (arith, c.bound, less);
                  }))
        ]

    filled-After :
        (n : ℕ) (bytes : List ℕ) (h : CopyFromFileHandler) (s : World S F E CopyFromFileHandler)
        → s.pending ≡ []
        → s.results ≡ []
        → h.source ≡ fd
        → 0 < length h.buffer
        → h.wait_id ≡ none
        → length bytes ≤ length h.buffer
        → length bytes + length (content s.files) + pending s.socket < suc n
        → Ensures (After n) (filled socket close files async_wait (some bytes) h s)
    unfolding filled send_callback
    filled-After n [] h s none_asked no_result source has_buffer no_wait within bound = rw no_wait (
        completed (record {
          deleted = refl;
          none_asked = none_asked;
          one_result =
              ap (λ l. l ++ (true, h.source) ∷ []) no_result ∙ ap (λ d. (true, d) ∷ []) source;
        }))
    filled-After n (b ∷ bytes) h s none_asked no_result source has_buffer no_wait within bound =
        let behind = drop (length (b ∷ bytes)) h.buffer in
        let size = length-append (b ∷ bytes) behind in
        let rest = length-drop (length (b ∷ bytes)) h.buffer in
        on_handle_ready-After n
          (record h {
            buffer = (b ∷ bytes) ++ behind;
            buffer_offset = 0;
            buffer_end = length (b ∷ bytes);
          })
          s
          record {
            none_asked = none_asked;
            no_result = no_result;
            source_kept = source;
            has_buffer = omega arith;
            no_wait = no_wait;
            some_left = omega arith;
            end_bound = omega (arith, size);
            bound = omega (arith, bound);
          }

    step-After :
        (n : ℕ) (r : Request) (h : CopyFromFileHandler) (s : World S F E CopyFromFileHandler)
        → Going (suc n) r h s
        → Ensures (After n) (step (deliver socket close files async_wait) 0 ok s)
    unfolding step deliver fill_buffer_now
    step-After n fill_buffer h s c =
        let (bytes, got, within, split) = reads (length h.buffer) s.files c.has_buffer in
        rw (c.asked, c.alive, c.source_kept, got)
          (filled-After n bytes (record h { source = fd }) _ refl c.no_result refl c.has_buffer
            c.waits_for within
            (omega (
              arith,
              c.bound,
              ap length split,
              length-append bytes
                  (content (files.read_file_descriptor fd (length h.buffer) s.files).1),
            )))
    step-After n handle_ready h s c =
        rw (c.asked, c.alive)
          (on_handle_ready-After n h _ record {
            none_asked = refl;
            no_result = c.no_result;
            source_kept = c.source_kept;
            has_buffer = c.has_buffer;
            no_wait = c.waits_for;
            some_left = c.in_bounds.0;
            end_bound = c.in_bounds.1;
            bound = c.bound;
          })
    step-After n (wait_complete id) h s c =
        rw (c.asked, c.alive)
          (on_handle_ready-After n (record h { wait_id = none }) _
            record {
              none_asked = refl;
              no_result = c.no_result;
              source_kept = c.source_kept;
              has_buffer = c.has_buffer;
              no_wait = refl;
              some_left = c.in_bounds.0;
              end_bound = c.in_bounds.1;
              bound = c.bound;
            })

    stays_Complete :
        (n : ℕ) (s : World S F E CopyFromFileHandler)
        → Complete s
        → Ensures Complete (run_schedule (deliver socket close files async_wait) (turns n) s)
    unfolding run_schedule
    stays_Complete zero s c = c
    stays_Complete (suc n) s c =
        rw (step_idle (deliver socket close files async_wait) 0 ok s (rw (c.none_asked) refl))
          (stays_Complete n s c)

    turns-Complete :
        (n : ℕ) (r : Request) (h : CopyFromFileHandler) (s : World S F E CopyFromFileHandler)
        → Going n r h s
        → Ensures Complete (run_schedule (deliver socket close files async_wait) (turns n) s)
    unfolding run_schedule
    turns-Complete zero r h s c = absurd (omega (arith, c.bound))
    turns-Complete (suc n) r h s c =
        Ensures-bind (After n) Complete (step (deliver socket close files async_wait) 0 ok s)
          (run_schedule (deliver socket close files async_wait) (turns n)) (step-After n r h s c)
          (λ t a. elim a [
            | completed done ↦ stays_Complete n t done
            | goes_on q k next ↦ turns-Complete n q k t next
          ])

finishes :
    {S F E : Type 0} (socket : Socket S) (close : S → S) (files : Files F) (async_wait : E → ℕ × E)
    (pending : S → ℕ) (content : F → List ℕ) (fd : ℕ)
    → IsSource files fd content
    → ((bytes : List ℕ) (s : S)
        → 0 < length bytes
        → Advances pending bytes s (socket.write bytes s))
    → ((size : ℕ) (f : F)
        → 0 < size
        → (bytes : List ℕ) × ((files.read_file_descriptor fd size f).0 ≡ some bytes))
    → (buffer : List ℕ) → 0 < length buffer
    → (offset end : ℕ) (destination : S) (fs : F) (waiter : E) (n : ℕ)
    → length (content fs) + pending destination < n
    → Ensures (Complete socket close files async_wait pending content fd) (
        run_schedule (deliver socket close files async_wait) (turns n) (
          copy_from_file_descriptor socket close files async_wait fd buffer offset end destination
            fs waiter))
unfolding copy_from_file_descriptor
finishes socket close files async_wait pending content fd source advances reads buffer some_buffer
      offset end destination fs waiter n bound =
    turns-Complete socket close files async_wait pending content fd advances
      (λ size f room.
        let (bytes, got) = reads size f room in
        (bytes, got, source.read_bound size f bytes got, source.content-read size f bytes got))
      n fill_buffer _ _
      record {
        alive = refl;
        asked = refl;
        no_result = refl;
        source_kept = refl;
        has_buffer = some_buffer;
        waits_for = refl;
        in_bounds = tt;
        bound = omega (arith, bound);
      }

-- A copy from a file that can be read to a socket that accepts bytes, after finitely many waits, comes to
-- its end: after more turns than there are bytes and waits to come, the handler is deleted and asks for
-- nothing, it has called back once, with true and the descriptor, and the socket has accepted all that
-- the file had, in order.
pub copies_from_file-Complete :
    {S F E : Type 0} (socket : Socket S) (close : S → S) (files : Files F) (async_wait : E → ℕ × E)
    (accepted : S → List ℕ) (pending : S → ℕ) (content : F → List ℕ) (fd : ℕ)
    → IsSink socket close accepted
    → IsSource files fd content
    → ((bytes : List ℕ) (s : S)
        → 0 < length bytes
        → Advances pending bytes s (socket.write bytes s))
    → ((size : ℕ) (f : F)
        → 0 < size
        → (bytes : List ℕ) × ((files.read_file_descriptor fd size f).0 ≡ some bytes))
    → (buffer : List ℕ) → 0 < length buffer
    → (offset end : ℕ) (destination : S) (fs : F) (waiter : E) (n : ℕ)
    → length (content fs) + pending destination < n
    → Ensures
        (λ s.
          Complete socket close files async_wait pending content fd s
          × (accepted s.socket ≡ accepted destination ++ content fs))
        (run_schedule (deliver socket close files async_wait) (turns n) (
          copy_from_file_descriptor socket close files async_wait fd buffer offset end destination
            fs waiter))
copies_from_file-Complete socket close files async_wait accepted pending content fd sink source
      advances reads buffer some_buffer offset end destination fs waiter n bound =
    Ensures-both (Complete socket close files async_wait pending content fd)
      (Inv accepted content (accepted destination ++ content fs) fd)
      (λ s.
        Complete socket close files async_wait pending content fd s
        × (accepted s.socket ≡ accepted destination ++ content fs))
      _
      (finishes socket close files async_wait pending content fd source advances reads buffer
        some_buffer offset end destination fs waiter n bound)
      (copies_from_file socket close files async_wait accepted content fd sink source buffer
        some_buffer offset end destination fs waiter (turns n))
      (λ s done inv. (
        done,
        elim inv [
          | copying r h c ↦ absurd (ground (arith, done.deleted, c.alive))
          | ended value e ↦ e.complete (ground (arith, done.one_result, e.one_result))
        ],
      ))
