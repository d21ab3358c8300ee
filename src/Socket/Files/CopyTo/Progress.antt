-- ===== src/Socket/Files/CopyTo/Progress.antt =====
-- A copy from a socket to a file comes to its end, where neither of them fails.
use mtl.Base.{
  ℕ, zero, suc, ◌+◌, ◌<◌, ◌≤◌, ◌≡◌, refl, sym, ap, ◌∙◌, true, none, List, [], ◌∷◌, ◌++◌, length,
  length-append, append_assoc, append-nil, Ensures, Ensures-bind, arith,
}
use mtl.Magenta.{ok, failed, should_wait, peer_closed}
use mtl.Socket.Stream.{Socket, ReadResult}
use mtl.Socket.BlockingDrain.{buffer_size}
use mtl.Socket.Files.{
  Request, fill_buffer, handle_ready, wait_complete, World, Files, step, step_idle, run_schedule,
  turns,
}
use mtl.Socket.Files.CopyTo.{
  CopyToFileHandler, on_handle_ready, on_data, wait_or_end, send_callback, deliver,
  copy_to_file_descriptor,
}
use mtl.Socket.Files.CopyTo.Invariant.{Copying}

-- A read gets some of the bytes to come, or has to wait, which happens `pending` times at most, or finds
-- that all were read and the peer is closed.
pub data Advances {S : Type 0} (content : S → List ℕ) (pending : S → ℕ) (s : S) (r : ReadResult S)
    : Type 0 where
  gets :
      r.status ≡ ok
      → 0 < length r.bytes
      → content s ≡ r.bytes ++ content r.next
      → pending r.next ≤ pending s
      → Advances content pending s r
  waits :
      r.status ≡ failed should_wait
      → content r.next ≡ content s
      → pending r.next < pending s
      → Advances content pending s r
  ends : r.status ≡ failed peer_closed → content s ≡ [] → Advances content pending s r

module _ {S F E : Type 0} (socket : Socket S) (close : S → S) (files : Files F)
    (async_wait : E → ℕ × E) (content : S → List ℕ) (pending : S → ℕ) (written : F → List ℕ)
    (fd : ℕ) where
  pub record Complete (whole : List ℕ) (s : World S F E CopyToFileHandler) : Type 0 where
    pub deleted : s.handler ≡ none
    pub none_asked : s.pending ≡ []
    pub one_result : s.results ≡ (true, fd) ∷ []
    pub everything : written s.files ≡ whole

  -- After a turn the copy is complete, or it goes on with fewer than `n` reads to come.
  data After (whole : List ℕ) (n : ℕ) (s : World S F E CopyToFileHandler) : Type 0 where
    completed : Complete whole s → After whole n s
    goes_on :
        (r : Request) (h : CopyToFileHandler)
        → Copying content written whole fd r h s
        → length (content s.socket) + pending s.socket < n
        → After whole n s

  module _
      (advances : (size : ℕ) (s : S) → 0 < size → Advances content pending s (socket.read size s))
      (writes : (bytes : List ℕ) (f : F)
        → ((files.write_file_descriptor fd bytes f).0 ≡ true)
          × (written (files.write_file_descriptor fd bytes f).1 ≡ written f ++ bytes)) where
    -- OnHandleReady of the handler that waits for nothing, while no call is asked for.
    on_handle_ready-After :
        (whole : List ℕ) (n : ℕ) (h : CopyToFileHandler) (s : World S F E CopyToFileHandler)
        → h ≡ record { destination = fd; wait_id = none }
        → s.pending ≡ []
        → s.results ≡ []
        → written s.files ++ content s.socket ≡ whole
        → length (content s.socket) + pending s.socket < suc n
        → Ensures (After whole n) (on_handle_ready socket close files async_wait ok h s)
    unfolding on_handle_ready on_data wait_or_end send_callback
    on_handle_ready-After whole n h s same none_asked no_result balance bound =
        let r = socket.read buffer_size s.socket in
        elim (advances buffer_size s.socket (omega arith)) [
          | gets st some_bytes split less ↦
              let (done, more) = writes r.bytes s.files in
              rw (same, st, done)
                (goes_on handle_ready _
                  (record {
                    alive = refl;
                    asked = ap (λ l. l ++ handle_ready ∷ []) none_asked;
                    no_result = no_result;
                    destination_kept = refl;
                    waits_for = refl;
                    balance =
                        ap (λ l. l ++ content r.next) more
                        ∙ append_assoc (written s.files) r.bytes (content r.next)
                        ∙ ap (λ l. written s.files ++ l) (sym split)
                        ∙ balance;
                  })
                  (omega (
                    arith,
                    bound,
                    some_bytes,
                    less,
                    ap length split,
                    length-append r.bytes (content r.next),
                  )))
          | waits st same_content less ↦
              let id = (async_wait s.waiter).0 in
              rw (same, st)
                (goes_on (wait_complete id) _
                  (record {
                    alive = refl;
                    asked = ap (λ l. l ++ wait_complete id ∷ []) none_asked;
                    no_result = no_result;
                    destination_kept = refl;
                    waits_for = refl;
                    balance = ap (λ l. written s.files ++ l) same_content ∙ balance;
                  })
                  (omega (arith, bound, less, ap length same_content)))
          | ends st nothing ↦
              rw (same, st)
                (completed (record {
                  deleted = refl;
                  none_asked = none_asked;
                  one_result = ap (λ l. l ++ (true, fd) ∷ []) no_result;
                  everything =
                      sym (append-nil (written s.files))
                      ∙ ap (λ l. written s.files ++ l) (sym nothing)
                      ∙ balance;
                }))
        ]

    waits_nothing :
        (h : CopyToFileHandler)
        → h.destination ≡ fd
        → h.wait_id ≡ none
        → h ≡ record { destination = fd; wait_id = none }
    waits_nothing h d e i = record { destination = d i; wait_id = e i }

    step-After :
        (whole : List ℕ) (n : ℕ) (r : Request) (h : CopyToFileHandler)
        (s : World S F E CopyToFileHandler)
        → Copying content written whole fd r h s
        → length (content s.socket) + pending s.socket < suc n
        → Ensures (After whole n) (step (deliver socket close files async_wait) 0 ok s)
    unfolding step deliver
    step-After whole n fill_buffer h s c bound = absurd c.waits_for
    step-After whole n handle_ready h s c bound =
        rw (c.asked, c.alive)
          (on_handle_ready-After whole n h _ (waits_nothing h c.destination_kept c.waits_for) refl
            c.no_result c.balance bound)
    step-After whole n (wait_complete id) h s c bound =
        rw (c.asked, c.alive)
          (on_handle_ready-After whole n (record h { wait_id = none }) _
            (ap (λ d. record { destination = d; wait_id = none }) c.destination_kept) refl
            c.no_result c.balance bound)

    stays_Complete :
        (whole : List ℕ) (n : ℕ) (s : World S F E CopyToFileHandler)
        → Complete whole s
        → Ensures
            (Complete whole)
            (run_schedule (deliver socket close files async_wait) (turns n) s)
    unfolding run_schedule
    stays_Complete whole zero s c = c
    stays_Complete whole (suc n) s c =
        rw (step_idle (deliver socket close files async_wait) 0 ok s (rw (c.none_asked) refl))
          (stays_Complete whole n s c)

    turns-Complete :
        (whole : List ℕ) (n : ℕ) (r : Request) (h : CopyToFileHandler)
        (s : World S F E CopyToFileHandler)
        → Copying content written whole fd r h s
        → length (content s.socket) + pending s.socket < n
        → Ensures
            (Complete whole)
            (run_schedule (deliver socket close files async_wait) (turns n) s)
    unfolding run_schedule
    turns-Complete whole zero r h s c bound = absurd (omega arith)
    turns-Complete whole (suc n) r h s c bound =
        Ensures-bind (After whole n) (Complete whole)
          (step (deliver socket close files async_wait) 0 ok s)
          (run_schedule (deliver socket close files async_wait) (turns n))
          (step-After whole n r h s c bound)
          (λ t a. elim a [
            | completed done ↦ stays_Complete whole n t done
            | goes_on q k next less ↦ turns-Complete whole n q k t next less
          ])

    -- A copy from a socket that ends, after finitely many waits, to a file whose writes do not fail comes
    -- to its end: after more turns than there are bytes and waits to come, the handler is deleted and asks
    -- for nothing, it has called back once, with true and the descriptor, and the file has what it had
    -- and all bytes of the socket, in order.
    pub copies_to_file-Complete :
        (source : S) (fs : F) (waiter : E) (n : ℕ)
        → length (content source) + pending source < n
        → Ensures (Complete (written fs ++ content source)) (
            run_schedule
              (deliver socket close files async_wait)
              (turns n)
              (copy_to_file_descriptor socket close files async_wait source fd fs waiter))
    unfolding copy_to_file_descriptor
    copies_to_file-Complete source fs waiter n bound =
        turns-Complete (written fs ++ content source) n handle_ready _ _
          (record {
            alive = refl;
            asked = refl;
            no_result = refl;
            destination_kept = refl;
            waits_for = refl;
            balance = refl;
          })
          bound
