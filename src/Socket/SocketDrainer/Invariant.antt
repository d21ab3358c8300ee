-- ===== src/Socket/SocketDrainer/Invariant.antt =====
-- What a drainer keeps: its waits, and what its client has.
use mtl.Base.{
  true, ◌≤◌, suc, ◌∷◌, ℕ, suc, ◌+◌, ◌<◌, ◌≡◌, false, none, some, List, [], ◌∷◌, ◌++◌, length,
}
use mtl.Socket.Stream.{Socket, IsReader}
use mtl.Socket.SocketDrainer.{Client, Waiter, World}

-- A client that keeps what it is handed: `received`, and how often it heard that the data is complete.
pub record IsRecording {C : Type 0} (client : Client C) : Type 0 where
  pub received : C → List ℕ
  pub completions : C → ℕ
  pub received-on_data_available :
      (bytes : List ℕ) (c : C) → received (client.on_data_available bytes c).1 ≡ received c ++ bytes
  pub completions-on_data_available :
      (bytes : List ℕ) (c : C) → completions (client.on_data_available bytes c).1 ≡ completions c
  pub received-on_data_complete : (c : C) → received (client.on_data_complete c).1 ≡ received c
  pub completions-on_data_complete :
      (c : C) → completions (client.on_data_complete c).1 ≡ suc (completions c)

-- A wait until data can be read adds no other wait.
abbrev pub WaitsAreShort : {S : Type 0} (socket : Socket S) → IsReader socket → Type 0
WaitsAreShort {S} socket reader =
    (s : S) → reader.pending (socket.wait_readable s).next ≤ reader.pending s

module _ {S E C : Type 0} (socket : Socket S) (close : S → S) (waiter : Waiter E)
    (client : Client C) (reader : IsReader socket) (recording : IsRecording client)
    (whole : List ℕ) where
  -- The reads and waits that a source can still take.
  abbrev pub to_come : S → ℕ
  to_come s = length (reader.content s) + reader.pending s

  -- The drainer waits, and fewer than `n` rounds are to come when the wait is over.
  pub record Draining (n id : ℕ) (s : World S E C) : Type 0 where
    pub alive : s.drainer ≡ some (record { wait_id = some id; has_sentinel = false })
    pub one_wait : s.waits ≡ id ∷ []
    pub balance : recording.received s.client ++ reader.content s.source ≡ whole
    pub not_yet : recording.completions s.client ≡ 0
    pub bound : to_come (socket.wait_readable s.source).next < n

  -- The client has everything, and was told so once.
  pub record Complete (s : World S E C) : Type 0 where
    pub no_wait : s.waits ≡ []
    pub everything : recording.received s.client ≡ whole
    pub told : recording.completions s.client ≡ 1

  -- The client destroyed the drainer before the end, and has the first bytes.
  pub record Destroyed (s : World S E C) : Type 0 where
    pub deleted : s.drainer ≡ none
    pub no_wait : s.waits ≡ []
    pub rest : List ℕ
    pub beginning : recording.received s.client ++ rest ≡ whole
    pub not_told : recording.completions s.client ≡ 0
    pub bytes : List ℕ
    pub before : C
    pub left : (client.on_data_available bytes before).0 ≡ true

  pub data Inv (n : ℕ) (s : World S E C) : Type 0 where
    draining : (id : ℕ) → Draining n id s → Inv n s
    complete : Complete s → Inv n s
    destroyed : Destroyed s → Inv n s
