-- ===== src/Socket/Files/CopyFrom/Invariant.antt =====
-- What CopyFromFileHandler keeps over any schedule of its calls.
use mtl.Base.{
  ◌<◌, ℕ, ◌≤◌, ◌≡◌, Bool, true, false, Option, none, some, List, [], ◌∷◌, ◌++◌, length, take,
}
use mtl.Magenta.{is_ok}
use mtl.Socket.Stream.{Socket}
use mtl.Socket.Files.{Request, fill_buffer, wait_complete, World, Files}
use mtl.Socket.Files.CopyFrom.{CopyFromFileHandler, unsent}

-- A socket that may fail or close: what it has accepted grows by the bytes of a write that succeeds.
pub record IsSink {S : Type 0} (socket : Socket S) (close : S → S) (accepted : S → List ℕ)
    : Type 0 where
  pub accepted-close : (s : S) → accepted (close s) ≡ accepted s
  pub written_bound :
      (bytes : List ℕ) (s : S)
      → is_ok (socket.write bytes s).status ≡ true
      → (socket.write bytes s).written ≤ length bytes
  pub accepted-write :
      (bytes : List ℕ) (s : S)
      → is_ok (socket.write bytes s).status ≡ true
      → accepted (socket.write bytes s).next
        ≡ accepted s ++ take (socket.write bytes s).written bytes
  pub accepted-write_failed :
      (bytes : List ℕ) (s : S)
      → is_ok (socket.write bytes s).status ≡ false
      → accepted (socket.write bytes s).next ≡ accepted s

-- Files whose reads may fail: `content` is what is still to be read, and a read of no bytes means
-- that there is nothing.
pub record IsSource {F : Type 0} (files : Files F) (fd : ℕ) (content : F → List ℕ) : Type 0 where
  pub read_bound :
      (size : ℕ) (f : F) (bytes : List ℕ)
      → (files.read_file_descriptor fd size f).0 ≡ some bytes
      → length bytes ≤ size
  pub content-read :
      (size : ℕ) (f : F) (bytes : List ℕ)
      → (files.read_file_descriptor fd size f).0 ≡ some bytes
      → content f ≡ bytes ++ content (files.read_file_descriptor fd size f).1
  pub content-read_failed :
      (size : ℕ) (f : F)
      → (files.read_file_descriptor fd size f).0 ≡ none
      → content (files.read_file_descriptor fd size f).1 ≡ content f
  pub content-read_end :
      (size : ℕ) (f : F)
      → 0 < size
      → (files.read_file_descriptor fd size f).0 ≡ some []
      → content (files.read_file_descriptor fd size f).1 ≡ []

-- `wait_id_` while a request is pending.
abbrev pub id_of : Request → Option ℕ
id_of (wait_complete id) = some id
id_of _ = none

-- The offsets say nothing before the first FillBuffer.
abbrev pub IsInBounds : Request → CopyFromFileHandler → Type 0
IsInBounds fill_buffer h = Unit
IsInBounds _ h = (h.buffer_offset < h.buffer_end) × (h.buffer_end ≤ length h.buffer)

abbrev pub buffered : Request → CopyFromFileHandler → List ℕ
buffered fill_buffer h = []
buffered _ h = unsent h

module _ {S F E : Type 0} (accepted : S → List ℕ) (content : F → List ℕ) (whole : List ℕ)
    (fd : ℕ) where
  -- The handler is alive and has asked for one call. The socket has what was read, less the buffer.
  pub record Copying (r : Request) (h : CopyFromFileHandler) (s : World S F E CopyFromFileHandler)
      : Type 0 where
    pub alive : s.handler ≡ some h
    pub asked : s.pending ≡ r ∷ []
    pub no_result : s.results ≡ []
    pub source_kept : h.source ≡ fd
    pub has_buffer : 0 < length h.buffer
    pub waits_for : h.wait_id ≡ id_of r
    pub in_bounds : IsInBounds r h
    pub balance : accepted s.socket ++ (buffered r h ++ content s.files) ≡ whole

  -- The handler is deleted, and its callback was called once, with the descriptor. If it was called
  -- with true, the socket has the whole file; it never has anything else than the file's beginning.
  pub record Ended (value : Bool) (s : World S F E CopyFromFileHandler) : Type 0 where
    pub deleted : s.handler ≡ none
    pub none_asked : s.pending ≡ []
    pub one_result : s.results ≡ (value, fd) ∷ []
    pub complete : value ≡ true → accepted s.socket ≡ whole
    pub rest : List ℕ
    pub partial_copy : accepted s.socket ++ rest ≡ whole

  pub data Inv (s : World S F E CopyFromFileHandler) : Type 0 where
    copying : (r : Request) (h : CopyFromFileHandler) → Copying r h s → Inv s
    ended : (value : Bool) → Ended value s → Inv s
