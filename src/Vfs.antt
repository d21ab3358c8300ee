-- ===== src/Vfs.antt =====
-- vfs/vfs_handler.cc and vfs/vfs_dispatcher.cc: the channels that a dispatcher serves. A use of a
-- handler that is deleted stops, as a failed check does.
pub mod Set
pub mod Live
pub mod Connections
pub mod Adds
pub mod Growth
pub mod Ends
pub mod Calls
pub mod Dispatcher
mod Tests
use mtl.Base.{
  ℕ, Bool, true, false, not, Option, none, some, List, [], ◌∷◌, ◌==◌, ltb, if◌then◌else◌, Outcome,
  returns, aborts, ◌>>=◌, ◌>>◌, check, Map, emplace, erase, find,
}
use mtl.Magenta.{Status, Signals, ok, is_ok, is_negative, handle_invalid, signal_none}
use mtl.Tasks.HandlerLoop.{HandlerLoop}

pub record VfsHandler : Type 0 where
  pub key : ℕ
  pub channel : ℕ
  pub callback : ℕ
  pub iostate : ℕ

-- The arguments of AddVFSHandler.
pub record Connection : Type 0 where
  pub channel : ℕ
  pub callback : ℕ
  pub iostate : ℕ

-- What a call of mxrio_handler does: its status, and the calls of AddVFSHandler from the callback.
pub record Served (E : Type 0) : Type 0 where
  pub status : Status
  pub next : E
  pub added : List Connection

-- `handlers` are the elements of the set `handlers_`, in its order; `io` is the state behind mxio.
pub record World (L E : Type 0) : Type 0 where
  pub loop : L
  pub heap : Map VfsHandler
  pub handlers : List ℕ
  pub io : E

pub record Platform (L TimeDelta E : Type 0) : Type 0 where
  pub max : TimeDelta
  pub new_handler : World L E → ℕ
  -- mxrio_handler on a handle, a callback and its iostate
  pub mxrio_handler : ℕ → ℕ → ℕ → E → Served E
  pub close_channel : ℕ → E → E

abbrev pub deref_handler : Option VfsHandler → Outcome VfsHandler
deref_handler none = aborts
deref_handler (some h) = returns h

-- std::set::insert and std::set::erase.
unfoldable pub insert : ℕ → List ℕ → List ℕ
insert p [] = p ∷ []
insert p (q ∷ qs) =
    let rest = insert p qs in if p == q then q ∷ qs else if ltb p q then p ∷ q ∷ qs else q ∷ rest

unfoldable pub remove : ℕ → List ℕ → List ℕ
remove p [] = []
remove p (q ∷ qs) = let rest = remove p qs in if p == q then rest else q ∷ rest

abbrev pub trigger : Signals
trigger = record signal_none { readable = true; peer_closed = true }

module _ {L TimeDelta E : Type 0} (loop : HandlerLoop L TimeDelta)
    (platform : Platform L TimeDelta E) where
  -- VFSHandler::Start, on the handler at an address.
  unfoldable pub start_handler : ℕ → Connection → World L E → Outcome (World L E)
  start_handler address connection s = do
    h ← deref_handler (find address s.heap)
    check (h.channel == handle_invalid)
    r ← loop.add_handler address connection.channel trigger platform.max s.loop
    returns (record s {
      loop = r.1;
      heap =
          emplace address
            (record {
              key = r.0;
              channel = connection.channel;
              callback = connection.callback;
              iostate = connection.iostate;
            })
            (erase address s.heap);
    })

  -- The callback of a new handler is not set; it is 0 here, and is not read before Start.
  abbrev pub vfs_handler : VfsHandler
  vfs_handler = record { key = 0; channel = handle_invalid; callback = 0; iostate = 0 }

  unfoldable pub add_vfs_handler : Connection → World L E → Outcome (Status × World L E)
  add_vfs_handler connection s = do
    let address = platform.new_handler s
    t ← start_handler address connection (record s { heap = emplace address vfs_handler s.heap })
    returns (ok, record t { handlers = insert address t.handlers })

  unfoldable pub add_all : List Connection → World L E → Outcome (World L E)
  add_all [] s = returns s
  add_all (c ∷ cs) s = add_vfs_handler c s >>= λ r. add_all cs r.1

  -- A call of mxrio_handler, with what its callback does with the dispatcher.
  unfoldable pub call_mxrio : ℕ → ℕ → ℕ → World L E → Outcome (Status × World L E)
  call_mxrio handle callback iostate s = do
    let r = platform.mxrio_handler handle callback iostate s.io
    t ← add_all r.added (record s { io = r.next })
    returns (r.status, t)

  -- `key_ = 0`, after RemoveHandler.
  unfoldable pub unregister : ℕ → VfsHandler → World L E → Outcome (World L E)
  unregister address h s = do
    l ← loop.remove_handler h.key s.loop
    returns (record s {
      loop = l;
      heap = emplace address (record h { key = 0 }) (erase address s.heap);
    })

  -- The handler goes, and its channel with it.
  unfoldable pub free_handler : ℕ → VfsHandler → World L E → World L E
  free_handler address h s = record s {
    heap = erase address s.heap;
    io = platform.close_channel h.channel s.io;
  }

  -- delete, with ~VFSHandler.
  unfoldable pub delete_handler : ℕ → World L E → Outcome (World L E)
  delete_handler address s = do
    h ← deref_handler (find address s.heap)
    t ← if h.key == 0 then returns s else (do
      s' ← unregister address h s
      r ← call_mxrio handle_invalid h.callback h.iostate s'
      returns r.1)
    returns (free_handler address h t)

  -- VFSDispatcher::Stop
  unfoldable pub dispatcher_stop : ℕ → World L E → Outcome (World L E)
  dispatcher_stop address s =
      delete_handler address (record s { handlers = remove address s.handlers })

  -- VFSHandler::Stop
  unfoldable pub stop : ℕ → Bool → World L E → Outcome (World L E)
  stop address needs_close s = do
    h ← deref_handler (find address s.heap)
    check (not (h.key == 0))
    s' ← unregister address h s
    t ←
        if needs_close
        then (do r ← call_mxrio handle_invalid h.callback h.iostate s'; returns r.1)
        else returns s'
    dispatcher_stop address t

  unfoldable pub on_handle_ready : ℕ → ℕ → Signals → ℕ → World L E → Outcome (World L E)
  on_handle_ready address handle pending count s =
      if pending.readable
      then (do
        h ← deref_handler (find address s.heap)
        r ← call_mxrio h.channel h.callback h.iostate s
        if is_ok r.0 then returns r.1 else stop address (is_negative r.0) r.1)
      else (do check pending.peer_closed; stop address true s)

  unfoldable pub on_handle_error : ℕ → ℕ → Status → World L E → Outcome (World L E)
  on_handle_error address handle status s = stop address true s

  unfoldable pub delete_all : List ℕ → World L E → Outcome (World L E)
  delete_all [] s = returns s
  delete_all (p ∷ ps) s = delete_handler p s >>= delete_all ps

  -- ~VFSDispatcher. While a callback that closes adds no handler, the loop goes over the set as it was.
  unfoldable pub destroy_dispatcher : World L E → Outcome (World L E)
  destroy_dispatcher s = delete_all s.handlers s >>= λ t. returns (record t { handlers = [] })
