-- ===== src/Socket/Files/CopyFrom.antt =====
-- CopyFromFileDescriptor and CopyFromFileHandler of socket/files.cc.
pub mod Invariant
pub mod Calls
pub mod Requests
pub mod Runs
pub mod Progress
mod Tests
use mtl.Base.{
  ℕ, ◌+◌, ◌-◌, ◌*◌, Bool, true, false, Option, none, some, List, [], ◌∷◌, ◌++◌, length, take, drop,
  ◌==◌, if◌then◌else◌, is_null, Outcome, returns, ◌>>=◌, ◌>>◌, check,
}
use mtl.Magenta.{Status, ok, is_ok, is_should_wait}
use mtl.Socket.Stream.{Socket}
use mtl.Socket.Files.{
  Request, fill_buffer, handle_ready, wait_complete, World, Files, deref_handler, run_schedule,
}

pub record CopyFromFileHandler : Type 0 where
  pub source : ℕ
  pub buffer : List ℕ
  pub buffer_offset : ℕ
  pub buffer_end : ℕ
  pub wait_id : Option ℕ

-- The bytes from `buffer_offset_` to `buffer_end_`.
abbrev pub unsent : CopyFromFileHandler → List ℕ
unsent h = take (h.buffer_end - h.buffer_offset) (drop h.buffer_offset h.buffer)

module _ {S F E : Type 0} (socket : Socket S) (close : S → S) (files : Files F)
    (async_wait : E → ℕ × E) where
  abbrev pub State : Type 0
  State = World S F E CopyFromFileHandler

  -- `delete this` closes the socket.
  unfoldable pub send_callback : Bool → CopyFromFileHandler → State → Outcome State
  send_callback value h s = do
    check (is_null h.wait_id)
    returns (record s {
      socket = close s.socket;
      handler = none;
      results = s.results ++ (value, h.source) ∷ [];
    })

  -- The end of OnHandleReady, where `result` is not MX_OK.
  unfoldable pub wait_or_fail : Status → CopyFromFileHandler → State → Outcome State
  wait_or_fail result h s =
      if is_should_wait result
      then (let (id, waiter) = async_wait s.waiter in
          returns (record s {
            waiter = waiter;
            handler = some (record h { wait_id = some id });
            pending = s.pending ++ wait_complete id ∷ [];
          }))
      else send_callback false h s

  -- OnHandleReady behind a write that took `written` bytes.
  unfoldable pub on_written : ℕ → CopyFromFileHandler → State → Outcome State
  on_written written h s =
      let offset = h.buffer_offset + written in
      returns (record s {
        handler = some (record h { buffer_offset = offset });
        pending = s.pending ++ (if offset == h.buffer_end then fill_buffer else handle_ready) ∷ [];
      })

  unfoldable pub on_handle_ready : Status → CopyFromFileHandler → State → Outcome State
  on_handle_ready result h s =
      let w = socket.write (unsent h) s.socket in
      let s' = record s { socket = w.next } in
      if is_ok result
      then (if is_ok w.status then on_written w.written h s' else wait_or_fail w.status h s')
      else wait_or_fail result h s

  -- FillBuffer behind the read. The bytes that are read are the first of the buffer.
  unfoldable pub filled : Option (List ℕ) → CopyFromFileHandler → State → Outcome State
  filled none h s = send_callback false h s
  filled (some []) h s = send_callback true h s
  filled (some (b ∷ bytes)) h s =
      on_handle_ready ok
        (record h {
          buffer = (b ∷ bytes) ++ drop (length (b ∷ bytes)) h.buffer;
          buffer_offset = 0;
          buffer_end = length (b ∷ bytes);
        })
        s

  unfoldable pub fill_buffer_now : CopyFromFileHandler → State → Outcome State
  fill_buffer_now h s =
      let (bytes, fs) = files.read_file_descriptor h.source (length h.buffer) s.files in
      filled bytes h (record s { files = fs })

  -- The posted closures, and WaitComplete.
  unfoldable pub deliver : Request → Status → State → Outcome State
  deliver fill_buffer status s = deref_handler s.handler >>= λ h. fill_buffer_now h s
  deliver handle_ready status s = deref_handler s.handler >>= λ h. on_handle_ready ok h s
  deliver (wait_complete id) status s =
      deref_handler s.handler >>= λ h. on_handle_ready status (record h { wait_id = none }) s

  -- CopyFromFileDescriptor with the constructor: a buffer of 64 * 1024 bytes, of which
  -- `buffer_offset_` and `buffer_end_` say nothing yet.
  unfoldable pub copy_from_file_descriptor : ℕ → List ℕ → ℕ → ℕ → S → F → E → State
  copy_from_file_descriptor source zeros offset end destination fs waiter = record {
    socket = destination;
    files = fs;
    waiter = waiter;
    handler = some (record {
      source = source;
      buffer = zeros;
      buffer_offset = offset;
      buffer_end = end;
      wait_id = none;
    });
    pending = fill_buffer ∷ [];
    results = [];
  }
