-- ===== src/Socket/Stream.antt =====
-- mx::socket, which is not part of the repository: its calls, and the documented behaviour of a
-- stream whose peer writes finitely many bytes, or reads all that it is sent.
use mtl.Base.{ℕ, ◌<◌, ◌≤◌, ◌≡◌, List, [], ◌++◌, length, take}
use mtl.Magenta.{Status, ok, failed, should_wait, peer_closed}

-- What a read or a write returns, with the socket that it leaves.
pub record ReadResult (S : Type 0) : Type 0 where
  pub status : Status
  pub bytes : List ℕ
  pub next : S

pub record WriteResult (S : Type 0) : Type 0 where
  pub status : Status
  pub written : ℕ
  pub next : S

pub record WaitResult (S : Type 0) : Type 0 where
  pub status : Status
  pub next : S

pub record Socket (S : Type 0) : Type 0 where
  -- read(0, buffer, size, &actual)
  pub read : ℕ → S → ReadResult S
  -- write(0, bytes, size, &actual)
  pub write : List ℕ → S → WriteResult S
  -- wait_one for MX_SOCKET_READABLE or MX_SOCKET_WRITABLE, or MX_SOCKET_PEER_CLOSED
  pub wait_readable : S → WaitResult S
  pub wait_writable : S → WaitResult S

-- A read of a stream: it gets some of the bytes to come, or none are there yet, or all were read
-- and the peer is closed.
pub data Reads {S : Type 0} (content : S → List ℕ) (pending : S → ℕ) (size : ℕ) (s : S)
    (r : ReadResult S) : Type 0 where
  gets :
      r.status ≡ ok
      → 0 < length r.bytes
      → length r.bytes ≤ size
      → content s ≡ r.bytes ++ content r.next
      → pending r.next ≤ pending s
      → Reads content pending size s r
  waits :
      r.status ≡ failed should_wait
      → content r.next ≡ content s
      → pending r.next ≡ pending s
      → Reads content pending size s r
  ends : r.status ≡ failed peer_closed → content s ≡ [] → Reads content pending size s r

-- The reading end: `content` is what is still to come, and a wait ends after finitely many others.
pub record IsReader {S : Type 0} (socket : Socket S) : Type 0 where
  pub content : S → List ℕ
  pub pending : S → ℕ
  pub reads : (size : ℕ) (s : S) → 0 < size → Reads content pending size s (socket.read size s)
  pub wait_readable_status : (s : S) → (socket.wait_readable s).status ≡ ok
  pub content-wait_readable : (s : S) → content (socket.wait_readable s).next ≡ content s
  pub pending-wait_readable :
      (size : ℕ) (s : S)
      → (socket.read size s).status ≡ failed should_wait
      → pending (socket.wait_readable (socket.read size s).next).next < pending s

-- A write to a stream: some of the bytes are accepted, or there is no room.
pub data Writes {S : Type 0} (accepted : S → List ℕ) (pending : S → ℕ) (bytes : List ℕ) (s : S)
    (r : WriteResult S) : Type 0 where
  puts :
      r.status ≡ ok
      → r.written ≤ length bytes
      → (0 < length bytes → 0 < r.written)
      → accepted r.next ≡ accepted s ++ take r.written bytes
      → pending r.next ≤ pending s
      → Writes accepted pending bytes s r
  waits :
      r.status ≡ failed should_wait
      → accepted r.next ≡ accepted s
      → pending r.next ≡ pending s
      → Writes accepted pending bytes s r

-- The writing end, whose peer reads on: `accepted` is what it was sent.
pub record IsWriter {S : Type 0} (socket : Socket S) : Type 0 where
  pub accepted : S → List ℕ
  pub pending : S → ℕ
  pub writes : (bytes : List ℕ) (s : S) → Writes accepted pending bytes s (socket.write bytes s)
  pub wait_writable_status : (s : S) → (socket.wait_writable s).status ≡ ok
  pub accepted-wait_writable : (s : S) → accepted (socket.wait_writable s).next ≡ accepted s
  pub pending-wait_writable :
      (bytes : List ℕ) (s : S)
      → (socket.write bytes s).status ≡ failed should_wait
      → pending (socket.wait_writable (socket.write bytes s).next).next < pending s
