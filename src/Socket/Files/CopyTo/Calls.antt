-- ===== src/Socket/Files/CopyTo/Calls.antt =====
-- Each call of a CopyToFileHandler keeps the invariant.
use mtl.Base.{
  ℕ, ◌≡◌, refl, sym, ◌∙◌, ap, Bool, true, false, none, some, List, [], ◌++◌, append_assoc,
  append-nil, take, drop, take-append-drop, Bool-cases, inl, inr, Ensures,
}
use mtl.Magenta.{Status, ok, is_ok, is_should_wait, is_peer_closed}
use mtl.Socket.Stream.{Socket}
use mtl.Socket.BlockingDrain.{buffer_size}
use mtl.Socket.Files.{Request, fill_buffer, handle_ready, wait_complete, World, Files}
use mtl.Socket.Files.CopyTo.{
  CopyToFileHandler, send_callback, wait_or_end, on_data, on_handle_ready, deliver,
}
use mtl.Socket.Files.CopyTo.Invariant.{IsStream, IsTarget, Copying, Inv, copying, ended}

module _ {S F E : Type 0} (socket : Socket S) (close : S → S) (files : Files F)
    (async_wait : E → ℕ × E) (content : S → List ℕ) (written : F → List ℕ) (whole : List ℕ) (fd : ℕ)
    (stream : IsStream socket content) (target : IsTarget files fd written) where
  abbrev Good : World S F E CopyToFileHandler → Type 0
  Good = Inv content written whole fd

  -- Between two calls: `left` is what of the data is not in the file.
  record Between (left : List ℕ) (h : CopyToFileHandler) (s : World S F E CopyToFileHandler)
      : Type 0 where
    none_asked : s.pending ≡ []
    no_result : s.results ≡ []
    destination_kept : h.destination ≡ fd
    no_wait : h.wait_id ≡ none
    balance : written s.files ++ left ≡ whole

  send_callback-Inv :
      (value : Bool) (left : List ℕ) (h : CopyToFileHandler) (s : World S F E CopyToFileHandler)
      → Between left h s
      → (value ≡ true → left ≡ [])
      → Ensures Good (send_callback socket close files async_wait value h s)
  unfolding send_callback
  send_callback-Inv value left h s b all = rw (b.no_wait) (
      ended value record {
        deleted = refl;
        none_asked = b.none_asked;
        one_result = rw (b.no_result, b.destination_kept) refl;
        complete = λ e.
            sym (append-nil (written s.files))
            ∙ ap (◌++◌ (written s.files)) (sym (all e))
            ∙ b.balance;
        rest = left;
        partial_copy = b.balance;
      })

  wait_or_end-Inv :
      (result : Status) (h : CopyToFileHandler) (s : World S F E CopyToFileHandler)
      → (is_peer_closed result ≡ true → content s.socket ≡ [])
      → Between (content s.socket) h s
      → Ensures Good (wait_or_end socket close files async_wait result h s)
  unfolding wait_or_end
  wait_or_end-Inv result h s closed b = elim (Bool-cases (is_peer_closed result)) [
    | inl e ↦ rw e (send_callback-Inv true (content s.socket) h s b (λ t. closed e))
    | inr open_still ↦ rw open_still (elim (Bool-cases (is_should_wait result)) [
      | inl waits ↦
          let (id, waiter) = async_wait s.waiter in
          rw waits (
            copying (wait_complete id) (record h { wait_id = some id })
              record {
                alive = refl;
                asked = rw (b.none_asked) refl;
                no_result = b.no_result;
                destination_kept = b.destination_kept;
                waits_for = refl;
                balance = b.balance;
              })
      | inr fails ↦ rw fails (send_callback-Inv false (content s.socket) h s b (λ e. cc))
    ])
  ]

  on_data-Inv :
      (bytes : List ℕ) (h : CopyToFileHandler) (s : World S F E CopyToFileHandler)
      → Between (bytes ++ content s.socket) h s
      → Ensures Good (on_data socket close files async_wait bytes h s)
  unfolding on_data
  on_data-Inv bytes h s b =
      let w = files.write_file_descriptor fd bytes s.files in
      let h' : CopyToFileHandler = record h { destination = fd } in
      rw (b.destination_kept) (elim (Bool-cases w.0) [
        | inl good ↦ rw good (
            copying handle_ready h' record {
              alive = refl;
              asked = rw (b.none_asked) refl;
              no_result = b.no_result;
              destination_kept = refl;
              waits_for = b.no_wait;
              balance =
                  ap (λ l. l ++ content s.socket) (target.written-write bytes s.files good)
                  ∙ append_assoc (written s.files) bytes (content s.socket)
                  ∙ b.balance;
            })
        | inr bad ↦
            let (k, part) = target.written-write_failed bytes s.files bad in
            rw bad (
              send_callback-Inv false (drop k bytes ++ content s.socket) h'
                (record s { files = w.1 })
                record {
                  none_asked = b.none_asked;
                  no_result = b.no_result;
                  destination_kept = refl;
                  no_wait = b.no_wait;
                  balance = split k part ∙ b.balance;
                }
                (λ e. cc))
      ])
    where
      split :
          (k : ℕ) {f : F}
          → written f ≡ written s.files ++ take k bytes
          → written f ++ (drop k bytes ++ content s.socket)
            ≡ written s.files ++ (bytes ++ content s.socket)
      split k e =
          ap (λ l. l ++ (drop k bytes ++ content s.socket)) e
          ∙ append_assoc (written s.files) (take k bytes) (drop k bytes ++ content s.socket)
          ∙ ap (◌++◌ (written s.files)) (
              sym (append_assoc (take k bytes) (drop k bytes) (content s.socket))
              ∙ ap (λ l. l ++ content s.socket) (take-append-drop k bytes))

  on_handle_ready-Inv :
      (result : Status) (h : CopyToFileHandler) (s : World S F E CopyToFileHandler)
      → is_peer_closed result ≡ false
      → Between (content s.socket) h s
      → Ensures Good (on_handle_ready socket close files async_wait result h s)
  unfolding on_handle_ready
  on_handle_ready-Inv result h s not_closed b =
      let r = socket.read buffer_size s.socket in
      elim (Bool-cases (is_ok result)) [
        | inr bad ↦ rw bad (wait_or_end-Inv result h s (λ e. cc) b)
        | inl good ↦ rw good (elim (Bool-cases (is_ok r.status)) [
          | inl got ↦ rw got (
              on_data-Inv r.bytes h (record s { socket = r.next })
                record {
                  none_asked = b.none_asked;
                  no_result = b.no_result;
                  destination_kept = b.destination_kept;
                  no_wait = b.no_wait;
                  balance =
                      ap (◌++◌ (written s.files))
                        (sym (stream.content-read buffer_size s.socket got))
                      ∙ b.balance;
                })
          | inr none_got ↦ rw none_got (
              wait_or_end-Inv r.status h (record s { socket = r.next })
                (stream.content-read_closed buffer_size s.socket)
                record {
                  none_asked = b.none_asked;
                  no_result = b.no_result;
                  destination_kept = b.destination_kept;
                  no_wait = b.no_wait;
                  balance =
                      ap (◌++◌ (written s.files))
                        (stream.content-read_failed buffer_size s.socket none_got)
                      ∙ b.balance;
                })
        ])
      ]

  pub deliver-Inv :
      (r : Request) (status : Status) (h : CopyToFileHandler) (s : World S F E CopyToFileHandler)
      → is_peer_closed status ≡ false
      → Copying content written whole fd r h s
      → Ensures Good (deliver socket close files async_wait r status (record s { pending = [] }))
  unfolding deliver
  deliver-Inv fill_buffer status h s not_closed c = absurd (c.waits_for)
  deliver-Inv handle_ready status h s not_closed c = rw (c.alive) (
      on_handle_ready-Inv ok h (record s { pending = []; handler = some h }) refl
        record {
          none_asked = refl;
          no_result = c.no_result;
          destination_kept = c.destination_kept;
          no_wait = c.waits_for;
          balance = c.balance;
        })
  deliver-Inv (wait_complete id) status h s not_closed c = rw (c.alive) (
      on_handle_ready-Inv status (record h { wait_id = none })
        (record s { pending = []; handler = some h }) not_closed
        record {
          none_asked = refl;
          no_result = c.no_result;
          destination_kept = c.destination_kept;
          no_wait = refl;
          balance = c.balance;
        })
