-- ===== src/Vfs/Calls.antt =====
-- VFSHandler::OnHandleReady and OnHandleError: the calls that the loop makes to a handler.
use mtl.Base.{
  ◌⊎◌, has, ◌∙◌, IsDistinct, List, subst, ℕ, ◌+◌, ◌≡◌, refl, false, true, Bool, none, some, ◌==◌,
  if◌then◌else◌, find, Ensures, Ensures-bind, Ensures-mono, length, arith, Outcome, returns,
}
use mtl.Magenta.{Status, Signals, is_ok, is_negative, ok, failed, informative}
use mtl.Tasks.HandlerLoop.{HandlerLoop, IsRegistry}
use mtl.Vfs.{
  Connection, VfsHandler, World, Platform, call_mxrio, add_all, stop, on_handle_ready,
  on_handle_error, Served,
}
use mtl.Vfs.Live.{IsLawful, Inv}
use mtl.Vfs.Growth.{Grown, add_all-Grown}
use mtl.Vfs.Connections.{AreServed, has-AreServed, AreServed-kept}
use mtl.Vfs.Ends.{closed, Ended, stop-Ended}

-- What ends a handler without a message.
pub data Hangup : Type 0 where
  peer_closes : Signals → Hangup
  fails : Status → Hangup

module _ {L TimeDelta E : Type 0} (loop : HandlerLoop L TimeDelta)
    (platform : Platform L TimeDelta E) where
  abbrev pub hang_up : Hangup → ℕ → ℕ → ℕ → World L E → Outcome (World L E)
  hang_up (peer_closes pending) p handle count s =
      on_handle_ready loop platform p handle
        (record pending { readable = false; peer_closed = true }) count s
  hang_up (fails status) p handle count s = on_handle_error loop platform p handle status s

module _ {L TimeDelta E : Type 0} (loop : HandlerLoop L TimeDelta)
    (platform : Platform L TimeDelta E) (Ready : ℕ → L → Type 0) (registry : IsRegistry loop Ready)
    (lawful : IsLawful loop platform Ready) where
  -- What mxrio_handler does with a handler that is readable.
  abbrev pub served : VfsHandler → World L E → Served E
  served h s = platform.mxrio_handler h.channel h.callback h.iostate s.io

  -- The handler at `p` and its entry are gone, the connections are served, each at an address of its
  -- own, and all else is as it was before.
  pub record Dropped (n p : ℕ) (h : VfsHandler) (cs : List Connection) (needs_close : Bool) (e : E)
      (s t : World L E) : Type 0 where
    pub inv : Inv loop platform Ready n t
    pub addresses : List ℕ
    pub distinct : IsDistinct addresses
    pub served : AreServed loop s.heap (loop.is_down s.loop) cs addresses t
    pub heap_left :
        (q : ℕ) → has q addresses ≡ false → find q t.heap ≡ (if p == q then none else find q s.heap)
    pub no_entry : loop.handler_of t.loop h.key ≡ none
    pub entries_kept :
        (k q : ℕ)
        → (h.key == k) ≡ false
        → loop.handler_of s.loop k ≡ some q
        → loop.handler_of t.loop k ≡ some q
    pub entries_new :
        (k q : ℕ)
        → loop.handler_of t.loop k ≡ some q
        → (loop.handler_of s.loop k ≡ some q)
          ⊎ ((loop.is_down s.loop ≡ false) × (has q addresses ≡ true))
    pub io_left : t.io ≡ closed loop platform Ready registry lawful h needs_close e

  -- The outcome that the status of mxrio_handler asks for, where `cs` were added and `e` is the state
  -- behind mxio.
  abbrev pub After :
      Status → ℕ → ℕ → VfsHandler → List Connection → E → World L E → World L E → Type 0
  After ok n p h cs e s t = Grown loop platform Ready registry lawful n cs (record s { io = e }) t
  After (failed error) n p h cs e s t = Dropped n p h cs true e s t
  After (informative code) n p h cs e s t = Dropped n p h cs false e s t

  module _ (n p : ℕ) (h : VfsHandler) (s : World L E) (there : find p s.heap ≡ some h)
      (cs : List Connection) (e : E) (t : World L E)
      (g : Grown loop platform Ready registry lawful n cs (record s { io = e }) t) where
    -- It is not among those that were added.
    old : has p g.addresses ≡ false
    old = has-AreServed loop s.heap _ cs g.addresses t p h g.served there

    still_there : find p t.heap ≡ some h
    still_there = g.heap_left p old ∙ there

    dropped :
        (needs_close : Bool) (u : World L E)
        → Ended loop platform Ready registry lawful n p h needs_close u.handlers t u
        → Dropped n p h cs needs_close t.io s u
    dropped needs_close u d = record {
      inv = d.live;
      addresses = g.addresses;
      distinct = g.distinct;
      served =
          AreServed-kept loop s.heap s.heap _ cs g.addresses t u (λ q free. free)
            (λ q v free found. (
              ground (arith, d.heap_left q, free, there),
              ground (
                arith,
                d.entries_left v.key,
                g.inv.owners.keys_differ q p v h found still_there,
                free,
                there,
              ),
            ))
            g.served;
      heap_left = λ q out. ground (arith, d.heap_left q, g.heap_left q out);
      no_entry = ground (arith, d.entries_left h.key);
      entries_kept = λ k q other found. ground (arith, d.entries_left k, g.entries_kept k q found);
      entries_new = λ k q found. ground (arith, d.entries_left k, g.entries_new k q);
      io_left = d.io_left;
    }

    stop-Dropped :
        (needs_close : Bool)
        → Ensures (Dropped n p h cs needs_close e s) (stop loop platform p needs_close t)
    stop-Dropped needs_close =
        subst (λ x. Ensures (Dropped n p h cs needs_close x s) (stop loop platform p needs_close t))
          g.same_io
          (Ensures-mono _ (Dropped n p h cs needs_close t.io s) (stop loop platform p needs_close t)
            (stop-Ended loop platform Ready registry lawful n p h t still_there needs_close g.inv)
            (dropped needs_close))

    -- The end of OnHandleReady, by the status that mxrio_handler returned.
    serve_rest :
        (status : Status)
        → Ensures
            (After status n p h cs e s)
            (if is_ok status then returns t else stop loop platform p (is_negative status) t)
    serve_rest ok = g
    serve_rest (failed error) = stop-Dropped true
    serve_rest (informative code) = stop-Dropped false

  -- A readable handler serves one message, and each connection that the callback adds is served then,
  -- by a handler at a free address of its own, with what it was given, which is registered unless the
  -- loop shuts down. The status decides: on MX_OK the handler goes on; on an error it is closed once and
  -- deleted; on a positive status it is deleted without a close. No check fails, no other handler and no
  -- other entry changes, and nothing else is registered.
  pub on_handle_ready-After :
      (n p handle count : ℕ) (pending : Signals) (h : VfsHandler) (s : World L E)
      → pending.readable ≡ true
      → find p s.heap ≡ some h
      → Inv loop platform Ready (length (served h s).added + n) s
      → Ensures
          (After (served h s).status n p h (served h s).added (served h s).next s)
          (on_handle_ready loop platform p handle pending count s)
  unfolding on_handle_ready call_mxrio
  on_handle_ready-After n p handle count pending h s readable there inv =
      let r = served h s in
      let began : World L E = record s { io = r.next } in
      rw (readable, there)
        (Ensures-bind
          (λ t. (t.0 ≡ r.status) × Grown loop platform Ready registry lawful n r.added began t.1)
          (After r.status n p h r.added r.next s)
          (call_mxrio loop platform h.channel h.callback h.iostate s) _
          (Ensures-bind _ _ (add_all loop platform r.added began) _
            (add_all-Grown loop platform Ready registry lawful n r.added began
              (lawful.adds_open h.channel h.callback h.iostate s.io)
              record { owners = inv.owners; listed = inv.listed; distinct = inv.distinct })
            (λ t g. (refl, g)))
          (λ t (same, g). rw same (serve_rest n p h s there r.added r.next t.1 g r.status)))

  -- A handler whose peer closes, with nothing left to read, or whose wait fails, is closed once and
  -- deleted, and its entry goes; no check fails, and no other handler or entry changes.
  pub hang_up-Ended :
      (e : Hangup) (n p handle count : ℕ) (h : VfsHandler) (s : World L E)
      → find p s.heap ≡ some h
      → Inv loop platform Ready n s
      → Ensures
          (λ t. Ended loop platform Ready registry lawful n p h true t.handlers s t)
          (hang_up loop platform e p handle count s)
  unfolding on_handle_ready on_handle_error
  hang_up-Ended (peer_closes pending) n p handle count h s there inv =
      stop-Ended loop platform Ready registry lawful n p h s there true inv
  hang_up-Ended (fails status) n p handle count h s there inv =
      stop-Ended loop platform Ready registry lawful n p h s there true inv
