-- ===== src/Socket/Files/CopyTo/Invariant.antt =====
-- What CopyToFileHandler keeps over any schedule of its calls.
use mtl.Base.{ℕ, ◌≡◌, Bool, true, false, Option, none, some, List, [], ◌∷◌, ◌++◌, take}
use mtl.Magenta.{is_ok, is_peer_closed}
use mtl.Socket.Stream.{Socket}
use mtl.Socket.Files.{Request, fill_buffer, handle_ready, wait_complete, World, Files}
use mtl.Socket.Files.CopyTo.{CopyToFileHandler}

-- A socket that may fail: `content` is what is still to be read from it, and a read finds the peer
-- closed when there is nothing.
pub record IsStream {S : Type 0} (socket : Socket S) (content : S → List ℕ) : Type 0 where
  pub content-read :
      (size : ℕ) (s : S)
      → is_ok (socket.read size s).status ≡ true
      → content s ≡ (socket.read size s).bytes ++ content (socket.read size s).next
  pub content-read_failed :
      (size : ℕ) (s : S)
      → is_ok (socket.read size s).status ≡ false
      → content (socket.read size s).next ≡ content s
  pub content-read_closed :
      (size : ℕ) (s : S)
      → is_peer_closed (socket.read size s).status ≡ true
      → content (socket.read size s).next ≡ []

-- Files whose writes may fail behind a part of the bytes.
pub record IsTarget {F : Type 0} (files : Files F) (fd : ℕ) (written : F → List ℕ) : Type 0 where
  pub written-write :
      (bytes : List ℕ) (f : F)
      → (files.write_file_descriptor fd bytes f).0 ≡ true
      → written (files.write_file_descriptor fd bytes f).1 ≡ written f ++ bytes
  pub written-write_failed :
      (bytes : List ℕ) (f : F)
      → (files.write_file_descriptor fd bytes f).0 ≡ false
      → (k : ℕ) × (written (files.write_file_descriptor fd bytes f).1 ≡ written f ++ take k bytes)

-- `wait_id_` while a request is pending, if the request is one of this handler.
abbrev pub Asks : Request → Option ℕ → Type 0
Asks fill_buffer id = ⊥
Asks handle_ready id = id ≡ none
Asks (wait_complete i) id = id ≡ some i

module _ {S F E : Type 0} (content : S → List ℕ) (written : F → List ℕ) (whole : List ℕ)
    (fd : ℕ) where
  pub record Copying (r : Request) (h : CopyToFileHandler) (s : World S F E CopyToFileHandler)
      : Type 0 where
    pub alive : s.handler ≡ some h
    pub asked : s.pending ≡ r ∷ []
    pub no_result : s.results ≡ []
    pub destination_kept : h.destination ≡ fd
    pub waits_for : Asks r h.wait_id
    pub balance : written s.files ++ content s.socket ≡ whole

  pub record Ended (value : Bool) (s : World S F E CopyToFileHandler) : Type 0 where
    pub deleted : s.handler ≡ none
    pub none_asked : s.pending ≡ []
    pub one_result : s.results ≡ (value, fd) ∷ []
    pub complete : value ≡ true → written s.files ≡ whole
    pub rest : List ℕ
    pub partial_copy : written s.files ++ rest ≡ whole

  pub data Inv (s : World S F E CopyToFileHandler) : Type 0 where
    copying : (r : Request) (h : CopyToFileHandler) → Copying r h s → Inv s
    ended : (value : Bool) → Ended value s → Inv s
