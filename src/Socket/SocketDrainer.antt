-- ===== src/Socket/SocketDrainer.antt =====
-- socket/socket_drainer.h and socket/socket_drainer.cc. The client is code that also says whether it
-- destroyed the drainer in a call; a use of a drainer that is destroyed stops, as a failed check does.
pub mod Invariant
pub mod Calls
pub mod Drains
mod Tests
use mtl.Base.{
  ℕ, ◌*◌, zero, suc, Bool, true, false, ◌||◌, Option, none, some, List, [], ◌∷◌, ◌==◌,
  if◌then◌else◌, is_null, Outcome, returns, aborts, ◌>>=◌, ◌>>◌, check,
}
use mtl.Magenta.{Status, is_ok, is_should_wait, is_peer_closed, is_bad_state}
use mtl.Socket.Stream.{Socket, ReadResult}

-- `has_sentinel` says that `destruction_sentinel_` points to the `is_destroyed` of a ReadData.
pub record SocketDrainer : Type 0 where
  pub wait_id : Option ℕ
  pub has_sentinel : Bool

-- SocketDrainer::Client. The Boolean says that the call destroyed the drainer.
pub record Client (C : Type 0) : Type 0 where
  pub on_data_available : List ℕ → C → Bool × C
  pub on_data_complete : C → Bool × C

-- FidlAsyncWaiter
pub record Waiter (E : Type 0) : Type 0 where
  pub async_wait : E → ℕ × E
  pub cancel_wait : ℕ → E → E

-- The source of the drainer, the waiter with the waits that it still has to complete, the drainer or
-- `none` when it is destroyed, and the client.
pub record World (S E C : Type 0) : Type 0 where
  pub source : S
  pub waiter : E
  pub waits : List ℕ
  pub drainer : Option SocketDrainer
  pub client : C

abbrev pub deref_drainer : Option SocketDrainer → Outcome SocketDrainer
deref_drainer none = aborts
deref_drainer (some d) = returns d

abbrev pub without : ℕ → List ℕ → List ℕ
without id [] = []
without id (x ∷ xs) = let rest = without id xs in if x == id then rest else x ∷ rest

-- std::vector<char> buffer(64 * 1024)
abbrev pub drain_size : ℕ
drain_size = 64 * 1024

module _ {S E C : Type 0} (socket : Socket S) (close : S → S) (waiter : Waiter E)
    (client : Client C) where
  abbrev cancel : Option ℕ → World S E C → World S E C
  cancel none s = s
  cancel (some id) s = record s {
    waiter = waiter.cancel_wait id s.waiter;
    waits = without id s.waits;
  }

  -- ~SocketDrainer: whether it sets an `is_destroyed`, and the state behind it.
  unfoldable pub destroy_drainer : World S E C → Outcome (Bool × World S E C)
  destroy_drainer s = do
    d ← deref_drainer s.drainer
    let s' = cancel d.wait_id s
    returns (d.has_sentinel, record s' { source = close s'.source; drainer = none })

  unfoldable pub wait_for_data : World S E C → Outcome (World S E C)
  wait_for_data s = do
    d ← deref_drainer s.drainer
    check (is_null d.wait_id)
    let (id, e) = waiter.async_wait s.waiter
    returns (record s {
      waiter = e;
      waits = id ∷ s.waits;
      drainer = some (record d { wait_id = some id });
    })

  -- The MX_OK branch of ReadData.
  unfoldable pub data_read : List ℕ → World S E C → Outcome (World S E C)
  data_read bytes s = do
    d ← deref_drainer s.drainer
    let (gone, c) = client.on_data_available bytes s.client
    let s' = record s { drainer = some (record d { has_sentinel = true }); client = c }
    r ← if gone then destroy_drainer s' else returns (false, s')
    if r.0 then returns r.1 else (do
      d' ← deref_drainer r.1.drainer
      wait_for_data (record r.1 { drainer = some (record d' { has_sentinel = false }) }))

  -- The branch for MX_ERR_PEER_CLOSED and MX_ERR_BAD_STATE.
  unfoldable pub data_complete : World S E C → Outcome (World S E C)
  data_complete s =
      let (gone, c) = client.on_data_complete s.client in
      let s' = record s { client = c } in
      if gone then (do r ← destroy_drainer s'; returns r.1) else returns s'

  unfoldable pub read_data : World S E C → Outcome (World S E C)
  read_data s =
      let r = socket.read drain_size s.source in
      let s' = record s { source = r.next } in
      if is_ok r.status
      then data_read r.bytes s'
      else if is_should_wait r.status
      then wait_for_data s'
      else if is_peer_closed r.status || is_bad_state r.status
      then data_complete s'
      else aborts

  -- A new drainer, and Start.
  unfoldable pub start : S → E → C → Outcome (World S E C)
  start source e c = read_data (record {
    source = source;
    waiter = e;
    waits = [];
    drainer = some (record { wait_id = none; has_sentinel = false });
    client = c;
  })

  unfoldable pub wait_complete : World S E C → Outcome (World S E C)
  wait_complete s = do
    d ← deref_drainer s.drainer
    read_data (record s { drainer = some (record d { wait_id = none }) })

  -- The waiter completes the oldest of its waits, whatever its status.
  unfoldable pub complete_wait : List ℕ → World S E C → Outcome (World S E C)
  complete_wait [] s = returns s
  complete_wait (id ∷ rest) s =
      wait_complete (record s { waits = rest; source = (socket.wait_readable s.source).next })

  unfoldable pub complete_waits : ℕ → World S E C → Outcome (World S E C)
  complete_waits zero s = returns s
  complete_waits (suc n) s = complete_wait s.waits s >>= complete_waits n
