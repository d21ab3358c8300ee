-- ===== src/Socket/Files/CopyTo.antt =====
-- CopyToFileDescriptor and CopyToFileHandler of socket/files.cc.
pub mod Invariant
pub mod Calls
pub mod Runs
pub mod Progress
mod Tests
use mtl.Base.{
  ℕ, Bool, true, false, Option, none, some, List, [], ◌∷◌, ◌++◌, if◌then◌else◌, is_null, Outcome,
  returns, aborts, ◌>>=◌, ◌>>◌, check,
}
use mtl.Magenta.{Status, ok, is_ok, is_should_wait, is_peer_closed}
use mtl.Socket.Stream.{Socket}
use mtl.Socket.BlockingDrain.{buffer_size}
use mtl.Socket.Files.{
  Request, fill_buffer, handle_ready, wait_complete, World, Files, deref_handler,
}

pub record CopyToFileHandler : Type 0 where
  pub destination : ℕ
  pub wait_id : Option ℕ

module _ {S F E : Type 0} (socket : Socket S) (close : S → S) (files : Files F)
    (async_wait : E → ℕ × E) where
  abbrev pub State : Type 0
  State = World S F E CopyToFileHandler

  -- `delete this` closes the socket.
  unfoldable pub send_callback : Bool → CopyToFileHandler → State → Outcome State
  send_callback value h s = do
    check (is_null h.wait_id)
    returns (record s {
      socket = close s.socket;
      handler = none;
      results = s.results ++ (value, h.destination) ∷ [];
    })

  -- The end of OnHandleReady, where `result` is not MX_OK.
  unfoldable pub wait_or_end : Status → CopyToFileHandler → State → Outcome State
  wait_or_end result h s =
      if is_peer_closed result
      then send_callback true h s
      else if is_should_wait result
      then (let (id, waiter) = async_wait s.waiter in
          returns (record s {
            waiter = waiter;
            handler = some (record h { wait_id = some id });
            pending = s.pending ++ wait_complete id ∷ [];
          }))
      else send_callback false h s

  -- OnHandleReady behind a read of `bytes`.
  unfoldable pub on_data : List ℕ → CopyToFileHandler → State → Outcome State
  on_data bytes h s =
      let (write_success, fs) = files.write_file_descriptor h.destination bytes s.files in
      let s' = record s { files = fs } in
      if write_success
      then returns (record s' { handler = some h; pending = s'.pending ++ handle_ready ∷ [] })
      else send_callback false h s'

  unfoldable pub on_handle_ready : Status → CopyToFileHandler → State → Outcome State
  on_handle_ready result h s =
      let r = socket.read buffer_size s.socket in
      let s' = record s { socket = r.next } in
      if is_ok result
      then (if is_ok r.status then on_data r.bytes h s' else wait_or_end r.status h s')
      else wait_or_end result h s

  -- The posted closure, and WaitComplete. This handler never asks for a FillBuffer.
  unfoldable pub deliver : Request → Status → State → Outcome State
  deliver fill_buffer status s = aborts
  deliver handle_ready status s = deref_handler s.handler >>= λ h. on_handle_ready ok h s
  deliver (wait_complete id) status s =
      deref_handler s.handler >>= λ h. on_handle_ready status (record h { wait_id = none }) s

  -- CopyToFileDescriptor with the constructor.
  unfoldable pub copy_to_file_descriptor : S → ℕ → F → E → State
  copy_to_file_descriptor source destination fs waiter = record {
    socket = source;
    files = fs;
    waiter = waiter;
    handler = some (record { destination = destination; wait_id = none });
    pending = handle_ready ∷ [];
    results = [];
  }
