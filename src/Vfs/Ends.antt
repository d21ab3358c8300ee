-- ===== src/Vfs/Ends.antt =====
-- How a handler ends: its own Stop, or the destruction of the dispatcher.
use mtl.Base.{
  has, IsDistinct, ◌>>=◌, Outcome, ◌||◌, returns, ℕ, ◌≡◌, refl, false, true, Bool, not, none, some,
  List, ◌∷◌, ◌==◌, if◌then◌else◌, find, emplace, erase, find-emplace, find-erase, Ensures,
  Ensures-bind, ◌&&◌, arith, Map,
}
use mtl.Magenta.{handle_invalid}
use mtl.Tasks.HandlerLoop.{HandlerLoop, IsRegistry, Unregistered}
use mtl.Tasks.HandlerLoop.Owners.{remove-Owners}
use mtl.Vfs.{
  VfsHandler, World, Platform, call_mxrio, add_all, unregister, free_handler, delete_handler,
  dispatcher_stop, stop, remove,
}
use mtl.Vfs.Set.{has-remove, remove-IsDistinct}
use mtl.Vfs.Live.{IsLawful, Live, Inv}

-- Once a handler is changed and freed, it is gone.
find-erase-changed :
    (p q : ℕ) (h : VfsHandler) (m : Map VfsHandler)
    → find q (erase p (emplace p h (erase p m))) ≡ (if p == q then none else find q m)
find-erase-changed p q h m = ground (
  arith,
  find-erase p p m,
  find-erase p q m,
  find-emplace p q h (erase p m),
  find-erase p q (emplace p h (erase p m)),
)

find-changed :
    (p : ℕ) (h : VfsHandler) (m : Map VfsHandler) → find p (emplace p h (erase p m)) ≡ some h
find-changed p h m = ground (arith, find-erase p p m, find-emplace p p h (erase p m))

module _ {L TimeDelta E : Type 0} (loop : HandlerLoop L TimeDelta)
    (platform : Platform L TimeDelta E) (Ready : ℕ → L → Type 0) (registry : IsRegistry loop Ready)
    (lawful : IsLawful loop platform Ready) where
  -- mxrio_handler on MX_HANDLE_INVALID, which closes, if it is called, and then the channel's close.
  abbrev pub closed : VfsHandler → Bool → E → E
  closed h needs_close e = platform.close_channel h.channel (
      if needs_close
      then (platform.mxrio_handler handle_invalid h.callback h.iostate e).next
      else e)

  -- The handler at `p` is gone, with its entry, and all others are as before.
  pub record Ended (n p : ℕ) (h : VfsHandler) (needs_close : Bool) (ps : List ℕ) (s t : World L E)
      : Type 0 where
    pub live : Live loop platform Ready n ps t
    pub heap_left : (q : ℕ) → find q t.heap ≡ (if p == q then none else find q s.heap)
    pub entries_left :
        (k : ℕ) → loop.handler_of t.loop k ≡ (if h.key == k then none else loop.handler_of s.loop k)
    pub io_left : t.io ≡ closed h needs_close s.io

  close_lem :
      (callback iostate : ℕ) (s : World L E)
      → call_mxrio loop platform handle_invalid callback iostate s
        ≡ returns (
          (platform.mxrio_handler handle_invalid callback iostate s.io).status,
          record s { io = (platform.mxrio_handler handle_invalid callback iostate s.io).next },
        )
  unfolding call_mxrio add_all
  close_lem callback iostate s = rw (lawful.close_adds_none callback iostate s.io) refl

  module _ (n p : ℕ) (h : VfsHandler) (s : World L E) (there : find p s.heap ≡ some h) (l : L)
      (ready : Ready n l) (u : Unregistered loop h.key s.loop l) where
    abbrev after : Bool → List ℕ → World L E
    after needs_close handlers = record {
      loop = l;
      heap = erase p (emplace p (record h { key = 0 }) (erase p s.heap));
      handlers = handlers;
      io = closed h needs_close s.io;
    }

    ended :
        (needs_close : Bool) (before ps handlers : List ℕ)
        → Live loop platform Ready n before s
        → IsDistinct ps
        → ((q : ℕ) → has q ps ≡ (not (p == q) && has q before))
        → Ended n p h needs_close ps s (after needs_close handlers)
    ended needs_close before ps handlers live distinct left =
        let at : (q : ℕ)
            → find q (after needs_close handlers).heap ≡ (if p == q then none else find q s.heap) =
          λ q. find-erase-changed p q (record h { key = 0 }) s.heap in
        record {
          live = record {
            owners =
                remove-Owners loop Ready (λ v. v.key) registry n p h s.heap _ s.loop l live.owners
                  ready u at;
            listed = λ q. ground (arith, at q, left q, live.listed q);
            distinct = distinct;
          };
          heap_left = at;
          entries_left = u.entries;
          io_left = refl;
        }

  -- The state once the handler's key is gone.
  abbrev detached : ℕ → VfsHandler → World L E → L → World L E
  detached p h s l = record s { loop = l; heap = emplace p (record h { key = 0 }) (erase p s.heap) }

  -- What holds of every state without the key holds after RemoveHandler.
  unregister_rule :
      (n p : ℕ) (h : VfsHandler) (s : World L E) (Q : World L E → Type 0)
      (f : World L E → Outcome (World L E))
      → Ready n s.loop
      → ((l : L) → Ready n l → Unregistered loop h.key s.loop l → Ensures Q (f (detached p h s l)))
      → Ensures Q (unregister loop platform p h s >>= f)
  unfolding unregister
  unregister_rule n p h s Q f ready k =
      Ensures-bind (λ t. Ensures Q (f t)) Q (unregister loop platform p h s) f
        (Ensures-bind _ (λ t. Ensures Q (f t)) (loop.remove_handler h.key s.loop) _
          (registry.remove_handler_lem n h.key s.loop ready) (λ l (r, u). k l r u))
        (λ t e. e)

  module _ (n p : ℕ) (h : VfsHandler) (s : World L E) (there : find p s.heap ≡ some h) where
    -- The first of the handlers is deleted.
    pub delete_handler-Ended :
        (ps : List ℕ)
        → Live loop platform Ready n (p ∷ ps) s
        → Ensures (Ended n p h true ps s) (delete_handler loop platform p s)
    unfolding delete_handler free_handler
    delete_handler-Ended ps live =
        let set = live.owners.key_set p h there in
        let left : (q : ℕ) → has q ps ≡ (not (p == q) && (p == q || has q ps)) =
          λ q. ground (arith, live.distinct) in
        rw (there, set)
          (Ensures-bind (λ t. Ended n p h true ps s (free_handler loop platform p h t))
            (Ended n p h true ps s)
            (unregister loop platform p h s >>= λ s'.
              call_mxrio loop platform handle_invalid h.callback h.iostate s' >>= λ r. returns r.1)
            _
            (unregister_rule n p h s _ _ live.owners.ready (λ l ready u.
              rw (close_lem h.callback h.iostate (detached p h s l)) (
                ended n p h s there l ready u true (p ∷ ps) ps s.handlers live live.distinct.1
                  left)))
            (λ t e. e))

    module _ (live : Inv loop platform Ready n s) (l : L) (ready : Ready n l)
        (u : Unregistered loop h.key s.loop l) where
      gone :
          (needs_close : Bool)
          → Ended n p h needs_close
              (remove p s.handlers)
              s
              (after n p h s there l ready u needs_close (remove p s.handlers))
      gone needs_close =
          ended n p h s there l ready u needs_close s.handlers (remove p s.handlers)
            (remove p s.handlers) live (remove-IsDistinct p s.handlers live.distinct)
            (λ q. has-remove p q s.handlers)

      stop_detached :
          (needs_close : Bool)
          → Ensures
              (λ t. Ended n p h needs_close t.handlers s t)
              ((if needs_close
                  then (do
                    r ←
                        call_mxrio loop platform handle_invalid h.callback h.iostate
                          (detached p h s l)
                    returns r.1)
                  else returns (detached p h s l))
                >>= λ t. dispatcher_stop loop platform p t)
      unfolding dispatcher_stop delete_handler free_handler
      stop_detached true =
          rw
            (
              close_lem h.callback h.iostate (detached p h s l),
              find-changed p (record h { key = 0 }) s.heap,
            )
            (gone true)
      stop_detached false = rw (find-changed p (record h { key = 0 }) s.heap) (gone false)

    -- A handler that stops is deleted, and closed if it is to be.
    pub stop-Ended :
        (needs_close : Bool)
        → Inv loop platform Ready n s
        → Ensures (λ t. Ended n p h needs_close t.handlers s t) (stop loop platform p needs_close s)
    unfolding stop
    stop-Ended needs_close live =
        rw (there, live.owners.key_set p h there)
          (unregister_rule n p h s _ _ live.owners.ready
            (λ l ready u. stop_detached live l ready u needs_close))
