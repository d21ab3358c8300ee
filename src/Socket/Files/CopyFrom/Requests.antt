-- ===== src/Socket/Files/CopyFrom/Requests.antt =====
-- FillBuffer, and every call that a CopyFromFileHandler asks for, keep the invariant.
use mtl.Base.{
  ℕ, ◌-◌, ◌≤◌, ◌≡◌, refl, sym, ◌∙◌, ap, true, false, Option, none, some, List, [], ◌∷◌, ◌++◌,
  append-nil, length, length-append, take, drop, take-append, arith, Ensures,
}
use mtl.Magenta.{Status, ok}
use mtl.Socket.Stream.{Socket}
use mtl.Socket.Files.{Request, fill_buffer, handle_ready, wait_complete, World, Files}
use mtl.Socket.Files.CopyFrom.{CopyFromFileHandler, unsent, filled, fill_buffer_now, deliver}
use mtl.Socket.Files.CopyFrom.Invariant.{IsSink, IsSource, Copying, Inv}
use mtl.Socket.Files.CopyFrom.Calls.{Between, send_callback-Inv, on_handle_ready-Inv}

module _ {S F E : Type 0} (socket : Socket S) (close : S → S) (files : Files F)
    (async_wait : E → ℕ × E) (accepted : S → List ℕ) (content : F → List ℕ) (whole : List ℕ)
    (fd : ℕ) (sink : IsSink socket close accepted) (source : IsSource files fd content) where
  -- The bytes of a read, where a read that fails has none.
  abbrev got : Option (List ℕ) → List ℕ
  got none = []
  got (some bytes) = bytes

  filled-Inv :
      (bytes : Option (List ℕ)) (h : CopyFromFileHandler) (s : World S F E CopyFromFileHandler)
      → Between socket close files async_wait accepted content whole fd sink source (got bytes) h s
      → length (got bytes) ≤ length h.buffer
      → (bytes ≡ some [] → content s.files ≡ [])
      → Ensures (Inv accepted content whole fd) (filled socket close files async_wait bytes h s)
  unfolding filled
  filled-Inv none h s b small last =
      send_callback-Inv socket close files async_wait accepted content whole fd sink source false []
        h s b (λ e. cc)
  filled-Inv (some []) h s b small last =
      send_callback-Inv socket close files async_wait accepted content whole fd sink source true []
        h s b
        (λ e.
          sym (append-nil (accepted s.socket))
          ∙ ap (◌++◌ (accepted s.socket)) (sym (last refl))
          ∙ b.balance)
  filled-Inv (some (x ∷ xs)) h s b small last =
      let bytes = x ∷ xs in
      let h' : CopyFromFileHandler = record h {
        buffer = bytes ++ drop (length bytes) h.buffer;
        buffer_offset = 0;
        buffer_end = length bytes;
      } in
      let none_off : length bytes - 0 ≡ length bytes = omega arith in
      let same : unsent h' ≡ bytes =
        ap (λ k. take k (bytes ++ drop (length bytes) h.buffer)) none_off
        ∙ take-append bytes (drop (length bytes) h.buffer) in
      on_handle_ready-Inv socket close files async_wait accepted content whole fd sink source ok h'
        s (omega arith, omega (arith, length-append bytes (drop (length bytes) h.buffer)))
        record {
          none_asked = b.none_asked;
          no_result = b.no_result;
          source_kept = b.source_kept;
          has_buffer = omega (arith, length-append bytes (drop (length bytes) h.buffer));
          no_wait = b.no_wait;
          balance = ap (λ l. accepted s.socket ++ (l ++ content s.files)) same ∙ b.balance;
        }

  fill_buffer_now-Inv :
      (h : CopyFromFileHandler) (s : World S F E CopyFromFileHandler)
      → Between socket close files async_wait accepted content whole fd sink source [] h s
      → Ensures (Inv accepted content whole fd) (fill_buffer_now socket close files async_wait h s)
  unfolding fill_buffer_now
  fill_buffer_now-Inv h s b =
      let (small, read, last) = read_lem h.source b.source_kept in
      filled-Inv (files.read_file_descriptor h.source (length h.buffer) s.files).0 h
        (record s { files = (files.read_file_descriptor h.source (length h.buffer) s.files).1 })
        record {
          none_asked = b.none_asked;
          no_result = b.no_result;
          source_kept = b.source_kept;
          has_buffer = b.has_buffer;
          no_wait = b.no_wait;
          balance = ap (◌++◌ (accepted s.socket)) (sym read) ∙ b.balance;
        }
        small last
    where
      cases :
          (r : Option (List ℕ))
          → (files.read_file_descriptor fd (length h.buffer) s.files).0 ≡ r
          → (length (got r) ≤ length h.buffer)
            × (content s.files
                ≡ got r ++ content (files.read_file_descriptor fd (length h.buffer) s.files).1)
      cases none e = (omega arith, sym (source.content-read_failed (length h.buffer) s.files e))
      cases (some bytes) e = (
        source.read_bound (length h.buffer) s.files bytes e,
        source.content-read (length h.buffer) s.files bytes e,
      )

      read_lem :
          (d : ℕ)
          → d ≡ fd
          → (length (got (files.read_file_descriptor d (length h.buffer) s.files).0)
              ≤ length h.buffer)
            × (content s.files
                ≡ got (files.read_file_descriptor d (length h.buffer) s.files).0
                  ++ content (files.read_file_descriptor d (length h.buffer) s.files).1)
            × ((files.read_file_descriptor d (length h.buffer) s.files).0 ≡ some []
                → content (files.read_file_descriptor d (length h.buffer) s.files).1 ≡ [])
      read_lem d same =
          let (small, read) =
            cases (files.read_file_descriptor fd (length h.buffer) s.files).0 refl in
          rw same (small, read, source.content-read_end (length h.buffer) s.files b.has_buffer)

  pub deliver-Inv :
      (r : Request) (status : Status) (h : CopyFromFileHandler)
      (s : World S F E CopyFromFileHandler)
      → Copying accepted content whole fd r h s
      → Ensures
          (Inv accepted content whole fd)
          (deliver socket close files async_wait r status (record s { pending = [] }))
  unfolding deliver
  deliver-Inv fill_buffer status h s c = rw (c.alive) (
      fill_buffer_now-Inv h (record s { pending = []; handler = some h })
        record {
          none_asked = refl;
          no_result = c.no_result;
          source_kept = c.source_kept;
          has_buffer = c.has_buffer;
          no_wait = c.waits_for;
          balance = c.balance;
        })
  deliver-Inv handle_ready status h s c = rw (c.alive) (
      on_handle_ready-Inv socket close files async_wait accepted content whole fd sink source ok h
        (record s { pending = []; handler = some h }) c.in_bounds
        record {
          none_asked = refl;
          no_result = c.no_result;
          source_kept = c.source_kept;
          has_buffer = c.has_buffer;
          no_wait = c.waits_for;
          balance = c.balance;
        })
  deliver-Inv (wait_complete id) status h s c = rw (c.alive) (
      on_handle_ready-Inv socket close files async_wait accepted content whole fd sink source status
        (record h { wait_id = none }) (record s { pending = []; handler = some h }) c.in_bounds
        record {
          none_asked = refl;
          no_result = c.no_result;
          source_kept = c.source_kept;
          has_buffer = c.has_buffer;
          no_wait = refl;
          balance = c.balance;
        })
