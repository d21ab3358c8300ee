-- ===== src/Socket/Files/CopyFrom/Calls.antt =====
-- SendCallback and OnHandleReady of CopyFromFileHandler keep the invariant.
use mtl.Base.{
  length-take_bound, ℕ, ◌<◌, ◌+◌, ◌-◌, ◌≤◌, ◌≡◌, refl, sym, ◌∙◌, ap, Bool, true, false, none, some,
  List, [], ◌++◌, append_assoc, length, take, drop, drop-take, drop-drop, take-append-drop, ◌==◌,
  Bool-cases, inl, inr, arith, Ensures,
}
use mtl.Magenta.{Status, is_ok, is_should_wait}
use mtl.Socket.Stream.{Socket}
use mtl.Socket.Files.{fill_buffer, handle_ready, wait_complete, World, Files}
use mtl.Socket.Files.CopyFrom.{
  CopyFromFileHandler, unsent, send_callback, wait_or_fail, on_written, on_handle_ready,
}
use mtl.Socket.Files.CopyFrom.Invariant.{IsSink, IsSource, Inv, copying, ended}

module _ {S F E : Type 0} (socket : Socket S) (close : S → S) (files : Files F)
    (async_wait : E → ℕ × E) (accepted : S → List ℕ) (content : F → List ℕ) (whole : List ℕ)
    (fd : ℕ) (sink : IsSink socket close accepted) (source : IsSource files fd content) where
  -- Between two calls: nothing is asked for, and `left` are the bytes that are read and not sent.
  pub record Between (left : List ℕ) (h : CopyFromFileHandler) (s : World S F E CopyFromFileHandler)
      : Type 0 where
    pub none_asked : s.pending ≡ []
    pub no_result : s.results ≡ []
    pub source_kept : h.source ≡ fd
    pub has_buffer : 0 < length h.buffer
    pub no_wait : h.wait_id ≡ none
    pub balance : accepted s.socket ++ (left ++ content s.files) ≡ whole

  abbrev Good : World S F E CopyFromFileHandler → Type 0
  Good = Inv accepted content whole fd

  pub send_callback-Inv :
      (value : Bool) (left : List ℕ) (h : CopyFromFileHandler) (s : World S F E CopyFromFileHandler)
      → Between left h s
      → (value ≡ true → accepted s.socket ≡ whole)
      → Ensures Good (send_callback socket close files async_wait value h s)
  unfolding send_callback
  send_callback-Inv value left h s b all = rw (b.no_wait) (
      ended value record {
        deleted = refl;
        none_asked = b.none_asked;
        one_result = rw (b.no_result, b.source_kept) refl;
        complete = λ e. sink.accepted-close s.socket ∙ all e;
        rest = left ++ content s.files;
        partial_copy =
            ap (λ l. l ++ (left ++ content s.files)) (sink.accepted-close s.socket) ∙ b.balance;
      })

  -- The offsets are within the buffer.
  abbrev InBounds : CopyFromFileHandler → Type 0
  InBounds h = (h.buffer_offset < h.buffer_end) × (h.buffer_end ≤ length h.buffer)

  wait_or_fail-Inv :
      (result : Status) (h : CopyFromFileHandler) (s : World S F E CopyFromFileHandler)
      → is_ok result ≡ false
      → InBounds h
      → Between (unsent h) h s
      → Ensures Good (wait_or_fail socket close files async_wait result h s)
  unfolding wait_or_fail
  wait_or_fail-Inv result h s bad within b = elim (Bool-cases (is_should_wait result)) [
    | inl waits ↦
        let (id, waiter) = async_wait s.waiter in
        rw waits (
          copying (wait_complete id) (record h { wait_id = some id })
            record {
              alive = refl;
              asked = rw (b.none_asked) refl;
              no_result = b.no_result;
              source_kept = b.source_kept;
              has_buffer = b.has_buffer;
              waits_for = refl;
              in_bounds = within;
              balance = b.balance;
            })
    | inr fails ↦ rw fails (send_callback-Inv false (unsent h) h s b (λ e. cc))
  ]

  unsent-advance :
      (h : CopyFromFileHandler) (n : ℕ)
      → drop n (unsent h) ≡ unsent (record h { buffer_offset = h.buffer_offset + n })
  unsent-advance h n =
      drop-take n (h.buffer_end - h.buffer_offset) (drop h.buffer_offset h.buffer)
      ∙ ap (take (h.buffer_end - h.buffer_offset - n)) (drop-drop n h.buffer_offset h.buffer)
      ∙ ap (λ k. take k (drop (h.buffer_offset + n) h.buffer)) (omega arith)

  length-unsent : (h : CopyFromFileHandler) → length (unsent h) ≤ h.buffer_end - h.buffer_offset
  length-unsent h =
      length-take_bound (h.buffer_end - h.buffer_offset) (drop h.buffer_offset h.buffer)

  on_written-Inv :
      (written : ℕ) (h : CopyFromFileHandler) (s : World S F E CopyFromFileHandler)
      → written ≤ length (unsent h)
      → InBounds h
      → Between (drop written (unsent h)) h s
      → Ensures Good (on_written socket close files async_wait written h s)
  unfolding on_written
  on_written-Inv written h s some_sent (offset_bound, end_bound) b =
      let h' : CopyFromFileHandler = record h { buffer_offset = h.buffer_offset + written } in
      let moved = unsent-advance h written in
      elim (Bool-cases (h.buffer_offset + written == h.buffer_end)) [
        | inl all_sent ↦
            let none_left : h.buffer_end - (h.buffer_offset + written) ≡ 0 = ground arith in
            let gone =
              moved ∙ ap (λ k. take k (drop (h.buffer_offset + written) h.buffer)) none_left in
            rw all_sent (
              copying fill_buffer h' record {
                alive = refl;
                asked = rw (b.none_asked) refl;
                no_result = b.no_result;
                source_kept = b.source_kept;
                has_buffer = b.has_buffer;
                waits_for = b.no_wait;
                in_bounds = tt;
                balance =
                    ap (λ l. accepted s.socket ++ (l ++ content s.files)) (sym gone) ∙ b.balance;
              })
        | inr more ↦ rw more (
            copying handle_ready h' record {
              alive = refl;
              asked = rw (b.none_asked) refl;
              no_result = b.no_result;
              source_kept = b.source_kept;
              has_buffer = b.has_buffer;
              waits_for = b.no_wait;
              in_bounds = (ground (arith, length-unsent h), end_bound);
              balance =
                  ap (λ l. accepted s.socket ++ (l ++ content s.files)) (sym moved) ∙ b.balance;
            })
      ]

  pub on_handle_ready-Inv :
      (result : Status) (h : CopyFromFileHandler) (s : World S F E CopyFromFileHandler)
      → InBounds h
      → Between (unsent h) h s
      → Ensures Good (on_handle_ready socket close files async_wait result h s)
  unfolding on_handle_ready
  on_handle_ready-Inv result h s within b =
      let w = socket.write (unsent h) s.socket in
      elim (Bool-cases (is_ok result)) [
        | inr bad ↦ rw bad (wait_or_fail-Inv result h s bad within b)
        | inl good ↦ rw good (elim (Bool-cases (is_ok w.status)) [
          | inl sent ↦ rw sent (
              on_written-Inv w.written h (record s { socket = w.next })
                (sink.written_bound (unsent h) s.socket sent) within
                record {
                  none_asked = b.none_asked;
                  no_result = b.no_result;
                  source_kept = b.source_kept;
                  has_buffer = b.has_buffer;
                  no_wait = b.no_wait;
                  balance =
                      split w.written (sink.accepted-write (unsent h) s.socket sent) ∙ b.balance;
                })
          | inr refused ↦ rw refused (
              wait_or_fail-Inv w.status h (record s { socket = w.next }) refused within
                record {
                  none_asked = b.none_asked;
                  no_result = b.no_result;
                  source_kept = b.source_kept;
                  has_buffer = b.has_buffer;
                  no_wait = b.no_wait;
                  balance =
                      ap (λ l. l ++ (unsent h ++ content s.files))
                        (sink.accepted-write_failed (unsent h) s.socket refused)
                      ∙ b.balance;
                })
        ])
      ]
    where
      split :
          (n : ℕ) {t : S}
          → accepted t ≡ accepted s.socket ++ take n (unsent h)
          → accepted t ++ (drop n (unsent h) ++ content s.files)
            ≡ accepted s.socket ++ (unsent h ++ content s.files)
      split n e =
          ap (λ l. l ++ (drop n (unsent h) ++ content s.files)) e
          ∙ append_assoc (accepted s.socket) (take n (unsent h))
              (drop n (unsent h) ++ content s.files)
          ∙ ap (◌++◌ (accepted s.socket)) (
              sym (append_assoc (take n (unsent h)) (drop n (unsent h)) (content s.files))
              ∙ ap (λ l. l ++ content s.files) (take-append-drop n (unsent h)))
